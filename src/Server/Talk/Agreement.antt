-- ===== src/Server/Talk/Agreement.antt =====
-- PRIVMSG and NS keep the server's maps in agreement, as long as the virtual clients do.
use rosev_ircsystem.Common.{
  ℕ, ◌≡◌, refl, ◌∙◌, inl, inr, Option, none, some, List, [], ◌∷◌, ◌==◌, if_elim, Bool-cases,
  Option-cases,
}
use rosev_ircsystem.Text.{Text, lowercased}
use rosev_ircsystem.Assoc.{nat_key, text_key, lookup}
use rosev_ircsystem.State.{ClientStatus, no_status, voice, Channel, Server, Environment, Virtual}
use rosev_ircsystem.Reply.{Reply}
use rosev_ircsystem.Send.{
  is_registered, send_numeric_reply, send_private_message, is_network_client,
}
use rosev_ircsystem.Send.Core.{IsQuiet, core-send_numeric_reply, core-send_irc_message}
use rosev_ircsystem.Server.Membership.{Inv}
use rosev_ircsystem.Server.Talk.{
  send_others, send_to_members, send_to_channel, send_to_user, send_to, receive_message_privmsg,
  receive_message_ns,
}

-- What the server needs of the virtual clients: a private message to one of them keeps the maps in
-- agreement, though NickServ identifies the sender or disconnects its ghost.
pub record IsTame (virt : Virtual) : Type 0 where
  pub quiet : IsQuiet virt
  pub private_message_kept :
      (s : Server) (d c : ℕ) (message : Text)
      → Inv s.core
      → Inv (virt.private_message s d c message).core

module _ (env : Environment) (virt : Virtual) (quiet : IsQuiet virt) where
  core-send_others :
      (c : ℕ) (members : List (ℕ × ClientStatus)) (message : Text) (s : Server)
      → (send_others env virt c members message s).core ≡ s.core
  unfolding send_others
  core-send_others c [] message s = refl
  core-send_others c ((d, _) ∷ members) message s =
      core-send_others c members message _
      ∙ if_elim (λ (t : Server). t.core ≡ s.core) (d == c) refl
          (core-send_irc_message env virt quiet d message s)

  core-send_to_members :
      (c : ℕ) (key : Text) (channel : Channel) (message : Text) (o : Option ClientStatus)
      (s : Server)
      → (send_to_members env virt c key channel message o s).core ≡ s.core
  unfolding send_to_members
  core-send_to_members c key channel message none s = core-send_numeric_reply env virt quiet c _ _ s
  core-send_to_members c key channel message (some no_status) s =
      core-send_numeric_reply env virt quiet c _ _ s
  core-send_to_members c key channel message (some voice) s = core-send_others c channel.clients _ s

  pub core-send_to_channel :
      (c : ℕ) (key message : Text) (s : Server)
      → (send_to_channel env virt c key message s).core ≡ s.core
  unfolding send_to_channel
  core-send_to_channel c key message s = elim (Option-cases (lookup key s.channels)) [
    | inl e ↦ rw (send_to_channel, e) (core-send_numeric_reply env virt quiet c _ _ s)
    | inr (channel, e) ↦
        rw (send_to_channel, e)
          (core-send_to_members c key channel message (lookup c channel.clients) s)
  ]

module _ (env : Environment) (virt : Virtual) (tame : IsTame virt) where
  reply-Inv :
      (c : ℕ) (r : Reply) (args : List Text) (s : Server)
      → Inv s.core
      → Inv (send_numeric_reply env virt c r args s).core
  reply-Inv c r args s v = rw (core-send_numeric_reply env virt tame.quiet c r args s) v

  send_private_message-Inv :
      (d c : ℕ) (message : Text) (s : Server)
      → Inv s.core
      → Inv (send_private_message env virt d c message s).core
  unfolding send_private_message
  send_private_message-Inv d c message s v = elim (Bool-cases (is_network_client d s)) [
    | inl e ↦ rw (e) (rw (core-send_irc_message env virt tame.quiet d _ s) v)
    | inr e ↦ rw (e) (tame.private_message_kept s d c message v)
  ]

  send_to_user-Inv :
      (c : ℕ) (nickname message : Text) (s : Server)
      → Inv s.core
      → Inv (send_to_user env virt c nickname message s).core
  unfolding send_to_user
  send_to_user-Inv c nickname message s v = elim (Option-cases (lookup nickname s.nicknames)) [
    | inl e ↦ rw (send_to_user, e) (reply-Inv c _ _ s v)
    | inr (d, e) ↦ rw (send_to_user, e) (send_private_message-Inv d c message s v)
  ]

  send_to-Inv :
      (c : ℕ) (recipient message : Text) (s : Server)
      → Inv s.core
      → Inv (send_to env virt c recipient message s).core
  unfolding send_to
  send_to-Inv c [] message s v = send_to_user-Inv c [] message s v
  send_to-Inv c (h ∷ name) message s v = elim (Bool-cases (h == 35)) [
    | inl e ↦
        rw (send_to, e)
          (rw (core-send_to_channel env virt tame.quiet c (lowercased name) message s) v)
    | inr e ↦ rw (send_to, e) (send_to_user-Inv c (lowercased (h ∷ name)) message s v)
  ]

  -- PRIVMSG to a channel or to a user keeps the maps in agreement, as long as the virtual clients
  -- do.
  pub receive_message_privmsg-Inv :
      (c : ℕ) (parameters : List Text) (s : Server)
      → Inv s.core
      → Inv (receive_message_privmsg env virt c parameters s).core
  unfolding receive_message_privmsg
  receive_message_privmsg-Inv c [] s v =
      if_elim (λ (t : Server). Inv t.core) (is_registered c s) (reply-Inv c _ _ s v) v
  receive_message_privmsg-Inv c (_ ∷ []) s v =
      if_elim (λ (t : Server). Inv t.core) (is_registered c s) (reply-Inv c _ _ s v) v
  receive_message_privmsg-Inv c (recipient ∷ message ∷ _) s v =
      if_elim (λ (t : Server). Inv t.core) (is_registered c s) (send_to-Inv c recipient message s v)
        v

  pub receive_message_ns-Inv :
      (c : ℕ) (parameters : List Text) (s : Server)
      → Inv s.core
      → Inv (receive_message_ns env virt c parameters s).core
  unfolding receive_message_ns
  receive_message_ns-Inv c parameters s v =
      if_elim (λ (t : Server). Inv t.core) (is_registered c s) (receive_message_privmsg-Inv c _ s v)
        v
