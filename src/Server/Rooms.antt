-- ===== src/Server/Rooms.antt =====
-- CIRCServer.cpp: the messages about channels, TOPIC, NAMES, PART and JOIN.
pub mod Induction
pub mod Access
pub mod Names
pub mod Agreement
use rosev_ircsystem.Common.{
  ℕ, Bool, true, false, not, ◌&&◌, ◌||◌, Option, none, some, List, [], ◌∷◌, ◌++◌, map, ◌==◌,
  if◌then◌else◌, is_empty,
}
use rosev_ircsystem.Text.{Text, lit, lowercased, split, text_eq}
use rosev_ircsystem.Assoc.{nat_key, text_key, lookup, has_key, Set}
use rosev_ircsystem.State.{ClientStatus, no_status, voice, Channel, Server, Environment, Virtual}
use rosev_ircsystem.Reply.{
  rpl_notopic, rpl_topic, rpl_namreply, rpl_endofnames, err_needmoreparams, err_nosuchchannel,
  err_notonchannel,
}
use rosev_ircsystem.Send.{
  ◌▸◌, is_registered, is_network_client, send_irc_message, send_numeric_reply, send_notice,
  send_all, undefined_behaviour, set_channel, add_client, remove_client, add_joined_channel,
  remove_joined_channel,
}

-- Without the hash character, if there is one.
unfoldable pub skip_hash : Text → Text
skip_hash [] = []
skip_hash (c ∷ s) = if c == 35 then s else c ∷ s

-- A channel name as it is looked up.
unfoldable pub channel_key : Text → Text
channel_key name = lowercased (skip_hash name)

-- The names that the do-while loops over a list of channels extract, in order.
unfoldable pub channel_names : Text → List Text
channel_names channels = map channel_key (split 44 channels)

-- The members of the channel at the key.
unfoldable pub members_of : Text → Server → List (ℕ × ClientStatus)
members_of key s = elim (lookup key s.channels) [ none ↦ [] | some channel ↦ channel.clients ]

plus_of : ClientStatus → Text
plus_of voice = lit "+"
plus_of no_status = []

-- The string of RPL_NAMREPLY, appended to what is already there.
unfoldable pub nickname_list : Server → Text → List (ℕ × ClientStatus) → Text
unfolding plus_of
nickname_list s list [] = list
nickname_list s list ((d, st) ∷ members) =
    nickname_list s
      (((if is_empty list then list else list ++ lit " ") ++ plus_of st) ++ (s.clients d).nickname)
      members

-- A protected nickname, and a client that has not identified.
unfoldable pub has_to_identify : Environment → ℕ → Server → Bool
has_to_identify env c s =
    has_key (s.clients c).nickname_lowercased env.user_passhash_map
    && not (s.clients c).user_state.is_identified

module _ (env : Environment) (virt : Virtual) where
  unfoldable pub send_topic : ℕ → Text → Server → Server
  send_topic c key s = elim (lookup key s.channels) [
    | none ↦ send_numeric_reply env virt c err_nosuchchannel (key ∷ []) s
    | some channel ↦
        if is_empty channel.topic
        then send_numeric_reply env virt c rpl_notopic (key ∷ []) s
        else send_numeric_reply env virt c rpl_topic (key ∷ channel.topic ∷ []) s
  ]

  unfoldable pub receive_message_topic : ℕ → List Text → Server → Server
  receive_message_topic c [] s =
      if not (is_registered c s)
      then s
      else send_numeric_reply env virt c err_needmoreparams (lit "TOPIC" ∷ []) s
  receive_message_topic c (name ∷ []) s =
      if not (is_registered c s) then s else send_topic c (channel_key name) s
  receive_message_topic c (name ∷ _ ∷ _) s = s

  unfoldable pub send_nicknames : ℕ → Text → Server → Server
  send_nicknames c key s = elim (lookup key s.channels) [
    | none ↦ s
    | some channel ↦
        send_numeric_reply env virt c rpl_namreply (key ∷ nickname_list s [] channel.clients ∷ []) s
  ]

  -- The loop of NAMES.
  unfoldable pub send_names : ℕ → List Text → Server → Server
  send_names c [] s = s
  send_names c (key ∷ keys) s =
      send_names c keys
        (s ▸ send_nicknames c key ▸ send_numeric_reply env virt c rpl_endofnames (key ∷ []))

  unfoldable pub receive_message_names : ℕ → List Text → Server → Server
  receive_message_names c [] s = s
  receive_message_names c (channels ∷ _) s =
      if not (is_registered c s) then s else send_names c (channel_names channels) s

  -- One round of the loop of PART; `false` is the early return.
  unfoldable pub part_channel : ℕ → Text → Server → Bool × Server
  part_channel c key s = elim (lookup key s.channels) [
    | none ↦ (true, send_numeric_reply env virt c err_nosuchchannel (key ∷ []) s)
    | some channel ↦
        if not (has_key c channel.clients)
        then (false, send_numeric_reply env virt c err_notonchannel (key ∷ []) s)
        else (
          true,
          s
              ▸ send_all env virt channel.clients
                  (lit ":" ++ ((s.clients c).prefix ++ (lit " PART #" ++ channel.name)))
              ▸ set_channel key (remove_client c channel)
              ▸ remove_joined_channel key c,
        )
  ]

  unfoldable pub part_channels : ℕ → List Text → Server → Server
  part_channels c [] s = s
  part_channels c (key ∷ keys) s =
      let r = part_channel c key s in
      let rest = part_channels c keys r.1 in if r.0 then rest else r.1

  unfoldable pub receive_message_part : ℕ → List Text → Server → Server
  receive_message_part c [] s =
      if not (is_registered c s)
      then s
      else send_numeric_reply env virt c err_needmoreparams (lit "PART" ∷ []) s
  receive_message_part c (channels ∷ _) s =
      if not (is_registered c s) then s else part_channels c (channel_names channels) s

  -- One round of the loop of JOIN 0.
  unfoldable pub leave_channel : ℕ → Text → Server → Server
  leave_channel c key s = elim (lookup key s.channels) [
    | none ↦ undefined_behaviour s
    | some channel ↦ receive_message_part c (channel.name ∷ []) s
  ]

  -- The loop of JOIN 0, over a copy of the joined channels.
  unfoldable pub leave_channels : ℕ → Set Text → Server → Server
  leave_channels c [] s = s
  leave_channels c ((key, _) ∷ joined) s = leave_channels c joined (leave_channel c key s)

  unfoldable pub show_mode : Bool → List (ℕ × ClientStatus) → Text → Server → Server
  show_mode is_voiced members message s =
      if is_voiced then send_all env virt members message s else s

  -- The part of JOIN for a client that may join the channel and is not yet part of it.
  unfoldable pub enter_channel : ℕ → Text → Channel → Bool → Server → Server
  enter_channel c key channel is_voiced s =
      let prefix = (s.clients c).prefix in
      let nickname = (s.clients c).nickname in
      let members = (add_client c (if is_voiced then voice else no_status) channel).clients in
      s
      ▸ set_channel key (add_client c (if is_voiced then voice else no_status) channel)
      ▸ add_joined_channel key c
      ▸ send_all env virt members (lit ":" ++ (prefix ++ (lit " JOIN #" ++ channel.name)))
      ▸ show_mode is_voiced members
          (lit ":" ++ (env.name ++ (lit " MODE #" ++ (channel.name ++ (lit " +v " ++ nickname)))))
      ▸ receive_message_topic c (channel.name ∷ [])
      ▸ receive_message_names c (channel.name ∷ [])

  -- One round of the loop of JOIN.
  unfoldable pub join_channel : ℕ → Text → Server → Server
  join_channel c key s = elim (lookup key s.channels) [
    | none ↦ send_numeric_reply env virt c err_nosuchchannel (key ∷ []) s
    | some channel ↦
        let is_voiced =
          not (is_network_client c s)
          || has_key (s.clients c).nickname_lowercased channel.allowed_users in
        if not is_voiced && not channel.allow_observers
        then send_notice env virt c none (lit "You are not allowed to join this channel!") s
        else if has_key c channel.clients
        then s
        else enter_channel c key channel is_voiced s
  ]

  unfoldable pub join_channels : ℕ → List Text → Server → Server
  join_channels c [] s = s
  join_channels c (key ∷ keys) s = join_channels c keys (join_channel c key s)

  unfoldable pub receive_message_join : ℕ → List Text → Server → Server
  receive_message_join c [] s =
      if not (is_registered c s)
      then s
      else send_numeric_reply env virt c err_needmoreparams (lit "JOIN" ∷ []) s
  receive_message_join c (channels ∷ _) s =
      if not (is_registered c s)
      then s
      else let s' =
          (if text_eq channels (lit "0")
            then leave_channels c (s.clients c).joined_channels s
            else s) in
        if has_to_identify env c s'
        then send_notice env virt c none (lit "Please identify first!") s'
        else join_channels c (channel_names channels) s'
