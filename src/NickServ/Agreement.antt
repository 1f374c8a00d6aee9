-- ===== src/NickServ/Agreement.antt =====
-- A private message to NickServ keeps the server's maps in agreement.
use rosev_ircsystem.Common.{
  ℕ, ◌≡◌, refl, sym, subst, inl, inr, true, not, ◌||◌, some, List, [], ◌∷◌, ◌==◌, if_elim,
  Bool-cases, Option-cases,
}
use rosev_ircsystem.Text.{Text, lit, lowercased, uppercased, text_eq, split}
use rosev_ircsystem.Assoc.{text_key, lookup}
use rosev_ircsystem.State.{Server, Environment, Virtual}
use rosev_ircsystem.Send.{
  is_network_client, to_network_client, send_notice, send_notices, set_user_state,
}
use rosev_ircsystem.Send.Core.{IsQuiet, core-send_notice, core-send_notices}
use rosev_ircsystem.Server.Membership.{Inv}
use rosev_ircsystem.Server.Membership.Preserved.{set_user_state-Inv}
use rosev_ircsystem.Server.Connection.Agreement.{disconnect_network_client-Inv}
use rosev_ircsystem.Server.Connection.Welcome.{core-set_user_state}
use rosev_ircsystem.NickServ.{
  Credentials, unknown_nickname, invalid_password, verified, check_credentials, verify_credentials,
  ghost_client, receive_command_ghost, general_help, ghost_help, identify_help,
  receive_command_help, identify, identify_with, receive_command_identify, command_handlers,
  run_command, send_private_message,
}

module _ (env : Environment) (virt : Virtual) (quiet : IsQuiet virt) (self : ℕ) where
  notice-Inv :
      (c : ℕ) (m : Text) (s : Server)
      → Inv s.core
      → Inv (send_notice env virt c (some self) m s).core
  notice-Inv c m s v = rw (core-send_notice env virt quiet c (some self) m s) v

  notices-Inv :
      (c : ℕ) (ms : List Text) (s : Server)
      → Inv s.core
      → Inv (send_notices env virt c (some self) ms s).core
  notices-Inv c ms s v = rw (core-send_notices env virt quiet c (some self) ms s) v

  -- The credentials are verified without any change but to what clients are sent.
  pub core-verify_credentials :
      (c : ℕ) (nickname password : Text) (s : Server)
      → (verify_credentials env virt self c nickname password s).1.core ≡ s.core
  unfolding verify_credentials
  core-verify_credentials c nickname password s =
      verified_as (check_credentials env nickname password) refl
    where
      verified_as :
          (r : Credentials)
          → check_credentials env nickname password ≡ r
          → (verify_credentials env virt self c nickname password s).1.core ≡ s.core
      verified_as unknown_nickname e =
          rw (verify_credentials, e) (core-send_notice env virt quiet c (some self) _ s)
      verified_as invalid_password e =
          rw (verify_credentials, e) (core-send_notices env virt quiet c (some self) _ s)
      verified_as verified e = rw (verify_credentials, e)

  ghost_client-Inv :
      (c : ℕ) (nickname password : Text) (d : ℕ) (s : Server)
      → Inv s.core
      → Inv (ghost_client env virt self c nickname password d s).core
  unfolding ghost_client
  ghost_client-Inv c nickname password d s v =
      let s' = (verify_credentials env virt self c nickname password s).1 in
      let v' = subst Inv (sym (core-verify_credentials c nickname password s)) v in
      if_elim (λ (t : Server). Inv t.core) (not (is_network_client d s) || (d == c))
        (notice-Inv c _ s v)
        (if_elim (λ (t : Server). Inv t.core)
          (verify_credentials env virt self c nickname password s).0
          (notice-Inv c _ _ (disconnect_network_client-Inv env virt quiet d _ s' v')) v')

  receive_command_ghost-Inv :
      (c : ℕ) (parameters : List Text) (s : Server)
      → Inv s.core
      → Inv (receive_command_ghost env virt self c parameters s).core
  unfolding receive_command_ghost
  receive_command_ghost-Inv c [] s v = notice-Inv c _ s v
  receive_command_ghost-Inv c (_ ∷ []) s v = notice-Inv c _ s v
  receive_command_ghost-Inv c (_ ∷ _ ∷ _ ∷ _) s v = notice-Inv c _ s v
  receive_command_ghost-Inv c (nickname ∷ password ∷ []) s v =
      elim (Option-cases (lookup (lowercased nickname) s.nicknames)) [
        | inl e ↦ rw (receive_command_ghost, e) (notice-Inv c _ s v)
        | inr (d, e) ↦
            rw (receive_command_ghost, e) (ghost_client-Inv c (lowercased nickname) password d s v)
      ]

  receive_command_help-Inv :
      (c : ℕ) (parameters : List Text) (s : Server)
      → Inv s.core
      → Inv (receive_command_help env virt self c parameters s).core
  unfolding receive_command_help
  receive_command_help-Inv c [] s v = notices-Inv c general_help s v
  receive_command_help-Inv c (topic ∷ _) s v =
      if_elim (λ (t : Server). Inv t.core) (text_eq (uppercased topic) (lit "GHOST"))
        (notices-Inv c ghost_help s v)
        (if_elim (λ (t : Server). Inv t.core) (text_eq (uppercased topic) (lit "IDENTIFY"))
          (notices-Inv c identify_help s v) v)

  identify-Inv :
      (c : ℕ) (password : Text) (s : Server)
      → Inv s.core
      → Inv (identify env virt self c password s).core
  unfolding identify
  identify-Inv c password s v =
      let r = verify_credentials env virt self c (s.clients c).nickname_lowercased password s in
      let v' = subst Inv (sym (core-verify_credentials c _ password s)) v in
      let state = record (r.1.clients c).user_state { is_identified = true } in
      if_elim (λ (t : Server). Inv t.core) r.0
        (notice-Inv c _ (set_user_state state c r.1) (
          subst Inv (sym (core-set_user_state state c r.1))
            (set_user_state-Inv c state r.1.core (v'.titled c) v')))
        v'

  identify_with-Inv :
      (parameters : List Text) (c : ℕ) (s : Server)
      → Inv s.core
      → Inv (identify_with env virt self parameters c s).core
  unfolding identify_with
  identify_with-Inv [] c s v = notice-Inv c _ s v
  identify_with-Inv (password ∷ []) c s v = identify-Inv c password s v
  identify_with-Inv (_ ∷ password ∷ _) c s v = identify-Inv c password s v

  receive_command_identify-Inv :
      (c : ℕ) (parameters : List Text) (s : Server)
      → Inv s.core
      → Inv (receive_command_identify env virt self c parameters s).core
  unfolding receive_command_identify
  receive_command_identify-Inv c parameters s v =
      if_elim (λ (t : Server). Inv t.core) (s.clients c).user_state.is_identified
        (notice-Inv c _ s v) (identify_with-Inv parameters c s v)

  run_command-Inv :
      (c : ℕ) (words : List Text) (s : Server)
      → Inv s.core
      → Inv (run_command env virt self c words s).core
  unfolding run_command command_handlers lookup
  run_command-Inv c [] s v = v
  run_command-Inv c (command ∷ parameters) s v =
      elim (Bool-cases (text_eq (lit "GHOST") (uppercased command))) [
        | inl e ↦ rw (run_command, e) (receive_command_ghost-Inv c parameters s v)
        | inr e ↦ elim (Bool-cases (text_eq (lit "HELP") (uppercased command))) [
          | inl f ↦ rw (run_command, e, f) (receive_command_help-Inv c parameters s v)
          | inr f ↦ elim (Bool-cases (text_eq (lit "IDENTIFY") (uppercased command))) [
            | inl g ↦ rw (run_command, e, f, g) (receive_command_identify-Inv c parameters s v)
            | inr g ↦ rw (run_command, e, f, g) (notice-Inv c _ s v)
          ]
        ]
      ]

  -- A private message to NickServ, whatever its command, keeps the maps in agreement, as long as
  -- virtual clients that are sent an IRC message change none of them.
  pub send_private_message-Inv :
      (c : ℕ) (message : Text) (s : Server)
      → Inv s.core
      → Inv (send_private_message env virt self c message s).core
  unfolding send_private_message to_network_client
  send_private_message-Inv c message s v =
      if_elim (λ (t : Server). Inv t.core) (is_network_client c s)
        (run_command-Inv c (split 32 message) s v) v
