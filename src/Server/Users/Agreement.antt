-- ===== src/Server/Users/Agreement.antt =====
-- NICK, USER, QUIT and the other messages about a client keep the server's maps in agreement.
use rosev_ircsystem.Common.{
  ℕ, ◌≡◌, refl, sym, subst, ap, ◌≢◌, inl, inr, true, false, not, some, List, [], ◌∷◌, arith,
  if◌then◌else◌, if_elim, Bool-cases, Option-cases, is_empty, ltb, length, ◌++◌,
}
use rosev_ircsystem.Text.{Text, lit, lowercased, text_eq, text_eq_iff}
use rosev_ircsystem.Assoc.{nat_key, text_key, lookup, lookup-erase, erase, insert}
use rosev_ircsystem.State.{Core, Server, Environment, Virtual, with_client, with_nicknames}
use rosev_ircsystem.Reply.{Reply, err_erroneusnickname}
use rosev_ircsystem.Send.{
  ◌▸◌, is_registered, is_user_registered, to_network_client, send_numeric_reply, send_irc_message,
  set_user_state, set_nickname, is_network_client,
}
use rosev_ircsystem.Send.Core.{
  IsQuiet, core-send_numeric_reply, core-send_notice, core-send_irc_message,
}
use rosev_ircsystem.Server.Membership.{rename, Inv}
use rosev_ircsystem.Server.Membership.Preserved.{rename-Inv}
use rosev_ircsystem.Server.Membership.Ready.{IsLive, IsLive-same}
use rosev_ircsystem.Server.Connection.{welcome_client}
use rosev_ircsystem.Server.Connection.Agreement.{disconnect_network_client-Inv}
use rosev_ircsystem.Server.Connection.Welcome.{
  set_user_state-IsLive, core-welcome_client, core-check_for_preset_nickname,
}
use rosev_ircsystem.Server.Users.{
  has_nickname_bytes, is_taken, add_nickname, replace_nickname, change_nickname, request_nickname,
  receive_message_nick, register_user, receive_message_user, receive_message_quit,
}

core-rename :
    (c : ℕ) (nickname lower : Text) (s : Server)
    → (p : Text) × ((s ▸ with_nicknames (insert lower c) ▸ set_nickname nickname lower c).core
        ≡ rename c nickname lower p s.nicknames s.core)
unfolding with_nicknames set_nickname with_client rename
core-rename c nickname lower s = (_, refl)

renamed :
    (c : ℕ) (nickname lower : Text) (t : Server)
    → nickname ≢ []
    → ((t ▸ with_nicknames (insert lower c) ▸ set_nickname nickname lower c).clients c).nickname
      ≢ []
unfolding with_nicknames set_nickname with_client
renamed c nickname lower t filled = ground arith

-- No name leads to a client that has none, so a name that no other client has is free.
renamed_from_none :
    (c : ℕ) (nickname lower p : Text) (s : Server)
    → nickname ≢ []
    → is_empty (s.clients c).nickname ≡ true
    → is_taken c lower s ≡ false
    → IsLive c s.core
    → IsLive c (rename c nickname lower p s.nicknames s.core)
unfolding is_taken
renamed_from_none c nickname lower p s filled e free r = record {
  inv =
      rename-Inv c nickname lower p s.nicknames s.core r.alive filled (λ n d h. h) nobody
        (λ n d h _. h) (ground (arith, nobody lower)) r.inv;
  alive = unfold rename in ground (arith, r.alive);
}
  where
    nobody : (n : Text) → lookup n s.nicknames ≢ some c
    nobody n h = ground (arith, r.inv.owner n c h, e)

-- Once its own name has been erased, no name leads to a client.
renamed_from_own :
    (c : ℕ) (nickname lower p : Text) (s : Server)
    → nickname ≢ []
    → is_empty (s.clients c).nickname ≡ false
    → is_taken c lower s ≡ false
    → IsLive c s.core
    → IsLive c (
        rename c nickname lower p
          (erase (s.clients c).nickname_lowercased s.nicknames)
          (s ▸ with_nicknames (erase (s.clients c).nickname_lowercased)).core)
unfolding is_taken with_nicknames rename
renamed_from_own c nickname lower p s filled e free r = record {
  inv =
      rename-Inv c nickname lower p (erase own s.nicknames) s.core r.alive filled
        (λ n d h. ground (arith, lookup-erase own n s.nicknames)) nobody
        (λ n d h other. ground (arith, lookup-erase own n s.nicknames, found, text_eq_iff own n))
        (ground (arith, nobody lower, lookup-erase own lower s.nicknames)) r.inv;
  alive = ground (arith, r.alive);
}
  where
    own : Text
    own = (s.clients c).nickname_lowercased

    found : lookup own s.nicknames ≡ some c
    found = r.inv.named c r.alive (ground (arith, e))

    nobody : (n : Text) → lookup n (erase own s.nicknames) ≢ some c
    nobody n h = ground (arith, lookup-erase own n s.nicknames, r.inv.owner n c, text_eq_iff own n)

module _ (env : Environment) (virt : Virtual) (quiet : IsQuiet virt) where
  finish_nick-IsLive :
      (c : ℕ) (s : Server)
      → (s.clients c).nickname ≢ []
      → IsLive c s.core
      → IsLive c
          (let state = (s.clients c).user_state in
            let s' = set_user_state (record state { has_sent_nick_message = true }) c s in
            if state.has_sent_user_message then welcome_client env virt c s' else s').core
  finish_nick-IsLive c s filled r =
      let s' =
        set_user_state (record (s.clients c).user_state { has_sent_nick_message = true }) c s in
      let r' = set_user_state-IsLive _ c s (λ _. filled) r in
      if_elim (λ (t : Server). IsLive c t.core) (s.clients c).user_state.has_sent_user_message
        (IsLive-same (core-welcome_client env virt quiet c s') r') r'

  -- The nickname is added to the map, and then NICK is noted.
  add_nickname-IsLive :
      (c : ℕ) (nickname lower : Text) (t : Server)
      → nickname ≢ []
      → ((p : Text) → IsLive c (rename c nickname lower p t.nicknames t.core))
      → IsLive c (add_nickname env virt c nickname lower t).core
  unfolding add_nickname
  add_nickname-IsLive c nickname lower t filled r =
      let t' = t ▸ with_nicknames (insert lower c) ▸ set_nickname nickname lower c in
      let r' = IsLive-same (core-rename c nickname lower t).1 (r _) in
      if_elim (λ (u : Server). IsLive c u.core) (is_user_registered (t'.clients c).user_state)
        (IsLive-same (core-check_for_preset_nickname env virt quiet c t') r')
        (finish_nick-IsLive c t' (renamed c nickname lower t filled) r')

  replace_nickname-IsLive :
      (c : ℕ) (nickname lower : Text) (d : ℕ) (s : Server)
      → nickname ≢ []
      → is_empty (s.clients c).nickname ≡ false
      → is_taken c lower s ≡ false
      → IsLive c s.core
      → IsLive c (replace_nickname env virt c nickname lower d s).core
  unfolding replace_nickname with_nicknames
  replace_nickname-IsLive c nickname lower d s filled e free r =
      let s' = s ▸ with_nicknames (erase (s.clients c).nickname_lowercased) in
      let message = lit ":" ++ ((s'.clients c).prefix ++ (lit " NICK " ++ nickname)) in
      if_elim (λ (t : Server). IsLive c t.core) (s.clients d).user_state.is_identified
        (IsLive-same (core-send_notice env virt quiet c _ _ s) r)
        (if_elim (λ (t : Server). IsLive c t.core) (not (is_empty (s.clients d).joined_channels))
          (IsLive-same (core-send_notice env virt quiet c _ _ s) r)
          (add_nickname-IsLive c nickname lower (send_irc_message env virt c message s') filled λ p.
            subst (λ (k : Core). IsLive c (rename c nickname lower p k.nicknames k))
              (sym (core-send_irc_message env virt quiet c message s'))
              (renamed_from_own c nickname lower p s filled e free r)))

  change_nickname-IsLive :
      (c : ℕ) (nickname lower : Text) (s : Server)
      → nickname ≢ []
      → is_taken c lower s ≡ false
      → IsLive c s.core
      → IsLive c (change_nickname env virt c nickname lower s).core
  unfolding change_nickname
  change_nickname-IsLive c nickname lower s filled free r =
      elim (Bool-cases (is_empty (s.clients c).nickname)) [
        | inl e ↦
            rw (change_nickname, e)
              (add_nickname-IsLive c nickname lower s filled
                λ p. renamed_from_none c nickname lower p s filled e free r)
        | inr e ↦ elim (Option-cases (lookup (s.clients c).nickname_lowercased s.nicknames)) [
          | inl h ↦ rw (change_nickname, e, h) r
          | inr (d, h) ↦
              rw (change_nickname, e, h)
                (replace_nickname-IsLive c nickname lower d s filled e free r)
        ]
      ]

  request_nickname-IsLive :
      (c : ℕ) (nickname : Text) (s : Server)
      → nickname ≢ []
      → IsLive c s.core
      → IsLive c (request_nickname env virt c nickname s).core
  unfolding request_nickname
  request_nickname-IsLive c nickname s filled r =
      elim (Bool-cases (is_taken c (lowercased nickname) s)) [
        | inl e ↦ rw (request_nickname, e) (kept _ (refused _))
        | inr e ↦
            rw (request_nickname, e) (kept _ (change_nickname-IsLive c nickname _ s filled e r))
      ]
    where
      refused :
          (reply : Reply) → IsLive c (send_numeric_reply env virt c reply (nickname ∷ []) s).core
      refused reply = IsLive-same (core-send_numeric_reply env virt quiet c reply _ s) r

      kept :
          (t : Server)
          → IsLive c t.core
          → IsLive c
              (if text_eq nickname (s.clients c).nickname
                then s
                else if ltb 30 (length nickname)
                then send_numeric_reply env virt c err_erroneusnickname (nickname ∷ []) s
                else if not (has_nickname_bytes nickname)
                then send_numeric_reply env virt c err_erroneusnickname (nickname ∷ []) s
                else t).core
      kept t h =
          if_elim (λ (t : Server). IsLive c t.core) (text_eq nickname (s.clients c).nickname) r
            (if_elim (λ (t : Server). IsLive c t.core) (ltb 30 (length nickname)) (refused _)
              (if_elim (λ (t : Server). IsLive c t.core) (not (has_nickname_bytes nickname))
                (refused _) h))

  -- NICK keeps the maps in agreement and leaves the client connected, if the nickname is not empty
  -- and virtual clients that are sent an IRC message change none of the maps.
  pub receive_message_nick-IsLive :
      (c : ℕ) (parameters : List Text) (s : Server)
      → ((rest : List Text) → parameters ≢ [] ∷ rest)
      → IsLive c s.core
      → IsLive c (receive_message_nick env virt c parameters s).core
  unfolding receive_message_nick to_network_client
  receive_message_nick-IsLive c [] s _ r =
      if_elim (λ (t : Server). IsLive c t.core) (is_network_client c s)
        (IsLive-same (core-send_numeric_reply env virt quiet c _ _ s) r) r
  receive_message_nick-IsLive c (nickname ∷ rest) s filled r =
      if_elim (λ (t : Server). IsLive c t.core) (is_network_client c s)
        (request_nickname-IsLive c nickname s (λ e. filled rest (ap (λ n. n ∷ rest) e)) r) r

  pub receive_message_user-IsLive :
      (c : ℕ) (parameters : List Text) (s : Server)
      → IsLive c s.core
      → IsLive c (receive_message_user env virt c parameters s).core
  unfolding receive_message_user to_network_client register_user
  receive_message_user-IsLive c parameters s r =
      let state = (s.clients c).user_state in
      let s' = set_user_state (record state { has_sent_user_message = true }) c s in
      let r' = set_user_state-IsLive _ c s (r.inv.titled c) r in
      if_elim (λ (t : Server). IsLive c t.core) (is_network_client c s)
        (if_elim (λ (t : Server). IsLive c t.core) (is_user_registered state) r
          (if_elim (λ (t : Server). IsLive c t.core) state.has_sent_nick_message
            (IsLive-same (core-welcome_client env virt quiet c s') r') r'))
        r

  -- QUIT leaves the maps in agreement, but without the client.
  pub receive_message_quit-Inv :
      (c : ℕ) (parameters : List Text) (s : Server)
      → Inv s.core
      → Inv (receive_message_quit env virt c parameters s).core
  unfolding receive_message_quit to_network_client
  receive_message_quit-Inv c parameters s v =
      if_elim (λ (t : Server). Inv t.core) (is_network_client c s)
        (if_elim (λ (t : Server). Inv t.core) (is_registered c s)
          (disconnect_network_client-Inv env virt quiet c (lit "Quit") s v) v)
        v
