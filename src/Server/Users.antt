-- ===== src/Server/Users.antt =====
-- CIRCServer.cpp: the messages about a client itself, NICK, USER, QUIT, PING, PONG, INFO and
-- VERSION.
pub mod Agreement
pub mod Quiet
use rosev_ircsystem.Common.{
  ℕ, Bool, true, false, not, ◌&&◌, ◌||◌, Option, none, some, List, [], ◌∷◌, ◌++◌, ◌==◌, leb, ltb,
  length, if◌then◌else◌, is_empty,
}
use rosev_ircsystem.Text.{Text, lit, lowercased, text_eq}
use rosev_ircsystem.Assoc.{text_key, lookup, insert, erase}
use rosev_ircsystem.State.{Server, Environment, Virtual, with_nicknames, UserState}
use rosev_ircsystem.Reply.{
  rpl_info, rpl_version, err_needmoreparams, err_nonicknamegiven, err_erroneusnickname,
  err_nicknameinuse,
}
use rosev_ircsystem.Send.{
  ◌▸◌, is_registered, is_user_registered, send_irc_message, send_numeric_reply, send_notice,
  undefined_behaviour, to_network_client, restart_ping_timer, set_user_state, set_nickname,
}
use rosev_ircsystem.Server.Connection.{
  check_for_preset_nickname, welcome_client, disconnect_network_client,
}

-- A-Z, a-z and _
unfoldable pub is_nickname_byte : ℕ → Bool
is_nickname_byte c = (leb b'A' c && leb c b'Z') || (leb b'a' c && leb c b'z') || (c == b'_')

-- The loop over the C string, up to its NUL.
unfoldable pub has_nickname_bytes : Text → Bool
has_nickname_bytes [] = true
has_nickname_bytes (c ∷ s) = (c == 0) || (is_nickname_byte c && has_nickname_bytes s)

-- Another client has the nickname.
unfoldable pub is_taken : ℕ → Text → Server → Bool
is_taken c lower s = elim (lookup lower s.nicknames) [ none ↦ false | some d ↦ not (d == c) ]

module _ (env : Environment) (virt : Virtual) where
  -- The end of ReceiveMessage_NICK, where the nickname is added.
  unfoldable pub add_nickname : ℕ → Text → Text → Server → Server
  add_nickname c nickname lower s =
      let s' = s ▸ with_nicknames (insert lower c) ▸ set_nickname nickname lower c in
      let state = (s'.clients c).user_state in
      if is_user_registered state
      then check_for_preset_nickname env virt c s'
      else let s'' = set_user_state (record state { has_sent_nick_message = true }) c s' in
        if state.has_sent_user_message then welcome_client env virt c s'' else s''

  -- The part of ReceiveMessage_NICK for a client that has a nickname, which m_Nicknames holds.
  unfoldable pub replace_nickname : ℕ → Text → Text → ℕ → Server → Server
  replace_nickname c nickname lower d s =
      if (s.clients d).user_state.is_identified
      then send_notice env virt c none
          (lit "You cannot change your nickname after having identified!") s
      else if not (is_empty (s.clients d).joined_channels)
      then send_notice env virt c none
          (lit "You cannot change your nickname after having joined a channel!") s
      else s
        ▸ with_nicknames (erase (s.clients c).nickname_lowercased)
        ▸ send_irc_message env virt c
            (lit ":" ++ ((s.clients c).prefix ++ (lit " NICK " ++ nickname)))
        ▸ add_nickname c nickname lower

  unfoldable pub change_nickname : ℕ → Text → Text → Server → Server
  change_nickname c nickname lower s =
      if is_empty (s.clients c).nickname
      then add_nickname c nickname lower s
      else elim (lookup (s.clients c).nickname_lowercased s.nicknames) [
        | none ↦ undefined_behaviour s
        | some d ↦ replace_nickname c nickname lower d s
      ]

  unfoldable pub request_nickname : ℕ → Text → Server → Server
  request_nickname c nickname s =
      if text_eq nickname (s.clients c).nickname
      then s
      else if ltb 30 (length nickname)
      then send_numeric_reply env virt c err_erroneusnickname (nickname ∷ []) s
      else if not (has_nickname_bytes nickname)
      then send_numeric_reply env virt c err_erroneusnickname (nickname ∷ []) s
      else if is_taken c (lowercased nickname) s
      then send_numeric_reply env virt c err_nicknameinuse (nickname ∷ []) s
      else change_nickname c nickname (lowercased nickname) s

  unfoldable pub receive_message_nick : ℕ → List Text → Server → Server
  receive_message_nick c [] =
      to_network_client c (send_numeric_reply env virt c err_nonicknamegiven [])
  receive_message_nick c (nickname ∷ _) = to_network_client c (request_nickname c nickname)

  unfoldable pub register_user : ℕ → Server → Server
  register_user c s =
      let state = (s.clients c).user_state in
      if is_user_registered state
      then s
      else let s' = set_user_state (record state { has_sent_user_message = true }) c s in
        if state.has_sent_nick_message then welcome_client env virt c s' else s'

  unfoldable pub receive_message_user : ℕ → List Text → Server → Server
  receive_message_user c parameters = to_network_client c (register_user c)

  unfoldable pub receive_message_quit : ℕ → List Text → Server → Server
  receive_message_quit c parameters =
      to_network_client c
        λ s. if is_registered c s then disconnect_network_client env virt c (lit "Quit") s else s

  unfoldable pub receive_message_ping : ℕ → List Text → Server → Server
  receive_message_ping c [] = to_network_client c λ s.
      if is_registered c s
      then send_numeric_reply env virt c err_needmoreparams (lit "PING" ∷ []) s
      else s
  receive_message_ping c (parameter ∷ _) = to_network_client c λ s.
      if is_registered c s
      then send_irc_message env virt c
          (lit ":" ++ (env.name ++ (lit " PONG " ++ (env.name ++ (lit " :" ++ parameter))))) s
      else s

  unfoldable pub receive_message_pong : ℕ → List Text → Server → Server
  receive_message_pong c parameters =
      to_network_client c λ s. if is_registered c s then restart_ping_timer c s else s

  unfoldable pub receive_message_info : ℕ → List Text → Server → Server
  receive_message_info c parameters s =
      s
      ▸ send_numeric_reply env virt c rpl_info (env.product_name ∷ [])
      ▸ send_numeric_reply env virt c rpl_info (env.version_copyright ∷ [])
      ▸ send_numeric_reply env virt c rpl_info ([] ∷ [])
      ▸ send_numeric_reply env virt c rpl_info
          ((env.version_id ++ (lit " (" ++ (env.environment_name ++ lit ")"))) ∷ [])
      ▸ send_numeric_reply env virt c rpl_info ([] ∷ [])
      ▸ send_numeric_reply env virt c rpl_info ((lit "Birth Date: " ++ env.version_date) ∷ [])
      ▸ send_numeric_reply env virt c rpl_info ((lit "On-line since " ++ env.online_date) ∷ [])

  unfoldable pub receive_message_version : ℕ → List Text → Server → Server
  receive_message_version c parameters = send_numeric_reply env virt c rpl_version (env.name ∷ [])
