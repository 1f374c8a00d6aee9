-- ===== src/Send/Core.antt =====
-- What the sending functions leave alone: the channels, the nicknames and the CClient objects.
use rosev_ircsystem.Common.{
  ℕ, ◌≡◌, refl, ◌∙◌, inl, inr, Option, none, some, List, [], ◌∷◌, arith, Bool-cases, if_elim,
}
use rosev_ircsystem.Text.{Text}
use rosev_ircsystem.State.{
  ClientStatus, Deadline, NetworkState, Server, Environment, Virtual, with_network,
}
use rosev_ircsystem.Reply.{Reply, reply_message, has_surplus, numeric_reply}
use rosev_ircsystem.Send.{
  send_irc_message, send_filled, send_numeric_reply, send_notice, send_notices, send_all,
  restart_timer, restart_ping_timer, restart_identify_timer, is_network_client,
}

-- A virtual client that is sent an IRC message changes neither channels nor nicknames nor clients.
pub record IsQuiet (virt : Virtual) : Type 0 where
  pub core_kept : (s : Server) (c : ℕ) (m : Text) → (virt.irc_message s c m).core ≡ s.core

pub core-with_network :
    (f : NetworkState → NetworkState) (c : ℕ) (s : Server) → (with_network f c s).core ≡ s.core
unfolding with_network
core-with_network f c s = refl

pub core-restart_timer :
    (d : Deadline) (n c : ℕ) (s : Server) → (restart_timer d n c s).core ≡ s.core
unfolding restart_timer with_network
core-restart_timer d n c s = refl

pub core-restart_ping_timer : (c : ℕ) (s : Server) → (restart_ping_timer c s).core ≡ s.core
unfolding restart_ping_timer restart_timer with_network
core-restart_ping_timer c s = refl

pub core-restart_identify_timer : (c : ℕ) (s : Server) → (restart_identify_timer c s).core ≡ s.core
unfolding restart_identify_timer restart_timer with_network
core-restart_identify_timer c s = refl

module _ (env : Environment) (virt : Virtual) (quiet : IsQuiet virt) where
  pub core-send_irc_message :
      (c : ℕ) (m : Text) (s : Server) → (send_irc_message env virt c m s).core ≡ s.core
  unfolding send_irc_message with_network
  core-send_irc_message c m s = ground (arith, quiet.core_kept s c m)

  core-send_filled :
      (c : ℕ) (m : Option Text) (s : Server) → (send_filled env virt c m s).core ≡ s.core
  unfolding send_filled
  core-send_filled c none s = refl
  core-send_filled c (some m) s = core-send_irc_message c m s

  pub core-send_numeric_reply :
      (c : ℕ) (r : Reply) (args : List Text) (s : Server)
      → (send_numeric_reply env virt c r args s).core ≡ s.core
  unfolding send_numeric_reply
  core-send_numeric_reply c r args s =
      if_elim (λ (t : Server). t.core ≡ s.core) (is_network_client c s)
        (if_elim (λ (t : Server). t.core ≡ s.core) (has_surplus (reply_message env r) args)
          (core-send_filled c (numeric_reply env (s.clients c) r args) s)
          (core-send_filled c (numeric_reply env (s.clients c) r args) s))
        refl

  pub core-send_notice :
      (c : ℕ) (d : Option ℕ) (m : Text) (s : Server) → (send_notice env virt c d m s).core ≡ s.core
  unfolding send_notice
  core-send_notice c d m s = elim (Bool-cases (is_network_client c s)) [
    | inl e ↦ rw (e) (core-send_irc_message c _ s)
    | inr e ↦ rw e
  ]

  pub core-send_notices :
      (c : ℕ) (d : Option ℕ) (ms : List Text) (s : Server)
      → (send_notices env virt c d ms s).core ≡ s.core
  unfolding send_notices
  core-send_notices c d [] s = refl
  core-send_notices c d (m ∷ ms) s =
      core-send_notices c d ms (send_notice env virt c d m s) ∙ core-send_notice c d m s

  pub core-send_all :
      (members : List (ℕ × ClientStatus)) (m : Text) (s : Server)
      → (send_all env virt members m s).core ≡ s.core
  unfolding send_all
  core-send_all [] m s = refl
  core-send_all ((d, _) ∷ members) m s =
      core-send_all members m (send_irc_message env virt d m s) ∙ core-send_irc_message d m s
