-- ===== src/LogBot/Quiet.antt =====
-- LogBot changes neither channels nor nicknames nor clients, and no VoteBot.
use rosev_ircsystem.Common.{
  ℕ, ◌≡◌, refl, ◌∙◌, inl, inr, not, List, [], ◌∷◌, if_elim, Bool-cases, Option-cases,
}
use rosev_ircsystem.Text.{Text, lit, lowercased, text_eq}
use rosev_ircsystem.Assoc.{nat_key, text_key, lookup, has_key}
use rosev_ircsystem.State.{Server, Environment, with_log_bot}
use rosev_ircsystem.Relay.{Relay, from_server, malformed, from_client, parse_relay}
use rosev_ircsystem.LogBot.{
  write_log, hash_name, log_join, log_message_join, log_message_part, log_message_privmsg, log_quit,
  log_message_quit, command_handlers, log_relay, send_irc_message,
}

-- Nothing has changed that a VoteBot or the maps hold.
abbrev Kept : Server → Server → Type 0
Kept s t = (t.core ≡ s.core) × (t.vote_bots ≡ s.vote_bots)

write_log-Kept : (key line : Text) (self : ℕ) (s : Server) → Kept s (write_log key line self s)
unfolding write_log with_log_bot
write_log-Kept key line self s = (refl, refl)

module _ (env : Environment) (self : ℕ) where
  log_join-Kept :
      (c : ℕ) (channel key : Text) (s : Server) → Kept s (log_join env self c channel key s)
  unfolding log_join
  log_join-Kept c channel key s =
      elim (Bool-cases (has_key key (s.log_bots self).channel_streams)) [
        | inr n ↦ rw (log_join, n) (refl, refl)
        | inl y ↦ elim (Option-cases (lookup key s.channels)) [
          | inl e ↦ rw (log_join, y, e) (refl, refl)
          | inr (ch, e) ↦ elim (Option-cases (lookup c ch.clients)) [
            | inl f ↦ rw (log_join, y, e, f) (refl, refl)
            | inr (st, f) ↦ rw (log_join, y, e, f) (write_log-Kept key _ self s)
          ]
        ]
      ]

  log_message_join-Kept :
      (c : ℕ) (parameters : List Text) (s : Server)
      → Kept s (log_message_join env self c parameters s)
  unfolding log_message_join
  log_message_join-Kept c [] s = (refl, refl)
  log_message_join-Kept c (channel ∷ []) s = elim (Option-cases (hash_name channel)) [
    | inl e ↦ rw (log_message_join, e) (refl, refl)
    | inr (name, e) ↦ rw (log_message_join, e) (log_join-Kept c channel (lowercased name) s)
  ]
  log_message_join-Kept c (_ ∷ _ ∷ _) s = (refl, refl)

  log_message_part-Kept :
      (c : ℕ) (parameters : List Text) (s : Server)
      → Kept s (log_message_part env self c parameters s)
  unfolding log_message_part
  log_message_part-Kept c [] s = (refl, refl)
  log_message_part-Kept c (channel ∷ []) s = elim (Option-cases (hash_name channel)) [
    | inl e ↦ rw (log_message_part, e) (refl, refl)
    | inr (name, e) ↦ rw (log_message_part, e) (write_log-Kept (lowercased name) _ self s)
  ]
  log_message_part-Kept c (_ ∷ _ ∷ _) s = (refl, refl)

  log_message_privmsg-Kept :
      (c : ℕ) (parameters : List Text) (s : Server)
      → Kept s (log_message_privmsg env self c parameters s)
  unfolding log_message_privmsg
  log_message_privmsg-Kept c [] s = (refl, refl)
  log_message_privmsg-Kept c (_ ∷ []) s = (refl, refl)
  log_message_privmsg-Kept c (channel ∷ message ∷ []) s = elim (Option-cases (hash_name channel)) [
    | inl e ↦ rw (log_message_privmsg, e) (refl, refl)
    | inr (name, e) ↦ rw (log_message_privmsg, e) (write_log-Kept (lowercased name) _ self s)
  ]
  log_message_privmsg-Kept c (_ ∷ _ ∷ _ ∷ _) s = (refl, refl)

  log_quit-Kept :
      (c : ℕ) (line : Text) (streams : List (Text × List Text)) (s t : Server)
      → Kept s t
      → Kept s (log_quit env self c line streams t)
  unfolding log_quit
  log_quit-Kept c line [] s t h = h
  log_quit-Kept c line ((key, _) ∷ streams) s t h = log_quit-Kept c line streams s _ (
      if_elim (Kept s) (not (has_key key t.channels)) h (
        if_elim (Kept s) (has_key key (t.clients c).joined_channels)
          (let written = write_log-Kept key line self t in (written.0 ∙ h.0, written.1 ∙ h.1)) h))

  log_message_quit-Kept :
      (c : ℕ) (parameters : List Text) (s : Server)
      → Kept s (log_message_quit env self c parameters s)
  unfolding log_message_quit
  log_message_quit-Kept c [] s = (refl, refl)
  log_message_quit-Kept c (reason ∷ []) s =
      log_quit-Kept c _ (s.log_bots self).channel_streams s s (refl, refl)
  log_message_quit-Kept c (_ ∷ _ ∷ _) s = (refl, refl)

  log_relay-Kept : (r : Relay) (s : Server) → Kept s (log_relay env self r s)
  unfolding log_relay command_handlers lookup
  log_relay-Kept from_server s = (refl, refl)
  log_relay-Kept malformed s = (refl, refl)
  log_relay-Kept (from_client user command parameters) s =
      elim (Option-cases (lookup user s.nicknames)) [
        | inl e ↦ rw (log_relay, e) (refl, refl)
        | inr (c, e) ↦ elim (Bool-cases (text_eq (lit "JOIN") command)) [
          | inl q ↦ rw (log_relay, e, q) (log_message_join-Kept c parameters s)
          | inr q ↦ elim (Bool-cases (text_eq (lit "PART") command)) [
            | inl p ↦ rw (log_relay, e, q, p) (log_message_part-Kept c parameters s)
            | inr p ↦ elim (Bool-cases (text_eq (lit "PRIVMSG") command)) [
              | inl o ↦ rw (log_relay, e, q, p, o) (log_message_privmsg-Kept c parameters s)
              | inr o ↦ elim (Bool-cases (text_eq (lit "QUIT") command)) [
                | inl n ↦ rw (log_relay, e, q, p, o, n) (log_message_quit-Kept c parameters s)
                | inr n ↦ rw (log_relay, e, q, p, o, n) (refl, refl)
              ]
            ]
          ]
        ]
      ]

  send_irc_message-Kept :
      (message : Text) (s : Server) → Kept s (send_irc_message env self message s)
  unfolding send_irc_message
  send_irc_message-Kept message s = log_relay-Kept (parse_relay message) s

  pub core-send_irc_message :
      (message : Text) (s : Server) → (send_irc_message env self message s).core ≡ s.core
  core-send_irc_message message s = (send_irc_message-Kept message s).0

  pub vote_bots-send_irc_message :
      (message : Text) (s : Server) → (send_irc_message env self message s).vote_bots ≡ s.vote_bots
  vote_bots-send_irc_message message s = (send_irc_message-Kept message s).1
