-- ===== src/NickServ/Access.antt =====
-- Who is identified by IDENTIFY and disconnected by GHOST.
use rosev_ircsystem.Common.{
  ℕ, ◌≡◌, refl, ap, ◌∙◌, inl, inr, true, false, not, ◌||◌, none, some, [], ◌∷◌, arith, ◌==◌,
  if_elim, Option-cases, Bool-cases,
}
use rosev_ircsystem.Text.{Text, lowercased, text_eq, text_eq_iff}
use rosev_ircsystem.Assoc.{text_key, lookup}
use rosev_ircsystem.State.{Core, Server, Environment, Virtual}
use rosev_ircsystem.Send.{is_network_client}
use rosev_ircsystem.Send.Core.{IsQuiet, core-send_notice, core-send_notices}
use rosev_ircsystem.Server.Membership.{change_client}
use rosev_ircsystem.Server.Connection.Welcome.{core-set_user_state}
use rosev_ircsystem.NickServ.{
  unknown_nickname, invalid_password, verified, check_credentials, verify_credentials, ghost_client,
  receive_command_ghost, identify,
}

-- The password that the configuration has for the nickname.
unfoldable pub IsPassword : Environment → Text → Text → Type 0
IsPassword env nickname password =
    lookup nickname env.user_passhash_map ≡ some (env.sha512 password)

check_credentials-password :
    (env : Environment) (nickname password : Text)
    → IsPassword env nickname password
    → check_credentials env nickname password ≡ verified
unfolding check_credentials IsPassword
check_credentials-password env nickname password e =
    ground (arith, e, text_eq_iff (env.sha512 password) (env.sha512 password))

module _ (env : Environment) (virt : Virtual) (quiet : IsQuiet virt) (self : ℕ) where
  verify_right :
      (c : ℕ) (nickname password : Text) (s : Server)
      → IsPassword env nickname password
      → verify_credentials env virt self c nickname password s ≡ (true, s)
  unfolding verify_credentials
  verify_right c nickname password s e =
      rw (verify_credentials, check_credentials-password env nickname password e)

  verify_wrong :
      (c : ℕ) (nickname password : Text) (s : Server)
      → ¬ IsPassword env nickname password
      → ((verify_credentials env virt self c nickname password s).0 ≡ false)
        × ((verify_credentials env virt self c nickname password s).1.core ≡ s.core)
  unfolding verify_credentials
  verify_wrong c nickname password s h =
      elim (Option-cases (lookup nickname env.user_passhash_map)) [
        | inl e ↦
            rw (verify_credentials, unknown e)
              (refl, core-send_notice env virt quiet c (some self) _ s)
        | inr (hash, e) ↦ elim (Bool-cases (text_eq hash (env.sha512 password))) [
          | inl q ↦ absurd (h (right hash e q))
          | inr q ↦
              rw (verify_credentials, wrong hash e q)
                (refl, core-send_notices env virt quiet c (some self) _ s)
        ]
      ]
    where
      unknown :
          lookup nickname env.user_passhash_map ≡ none
          → check_credentials env nickname password ≡ unknown_nickname
      unknown e = unfold check_credentials in ground (arith, e)

      wrong :
          (hash : Text)
          → lookup nickname env.user_passhash_map ≡ some hash
          → text_eq hash (env.sha512 password) ≡ false
          → check_credentials env nickname password ≡ invalid_password
      wrong hash e q = unfold check_credentials in ground (arith, e, q)

      right :
          (hash : Text)
          → lookup nickname env.user_passhash_map ≡ some hash
          → text_eq hash (env.sha512 password) ≡ true
          → IsPassword env nickname password
      right hash e q =
          unfold IsPassword in e ∙ ap (λ h. some h) ((text_eq_iff hash (env.sha512 password)).0 q)

  identify_right :
      (c : ℕ) (password : Text) (s : Server)
      → IsPassword env (s.clients c).nickname_lowercased password
      → ((identify env virt self c password s).clients c).user_state.is_identified ≡ true
  unfolding identify change_client
  identify_right c password s e =
      rw (identify, verify_right c (s.clients c).nickname_lowercased password s e)
        (ap (λ (k : Core). (k.clients c).user_state.is_identified)
            (core-send_notice env virt quiet c (some self) _ _ ∙ core-set_user_state _ c s)
          ∙ ground arith)

  identify_wrong :
      (c : ℕ) (password : Text) (s : Server)
      → ¬ IsPassword env (s.clients c).nickname_lowercased password
      → (identify env virt self c password s).core ≡ s.core
  unfolding identify
  identify_wrong c password s h =
      let (e, f) = verify_wrong c (s.clients c).nickname_lowercased password s h in
      rw (identify, e) f

  -- IDENTIFY with the password that the configuration has for the client's nickname identifies the
  -- client, and with any other one it changes neither a client nor a channel nor a nickname.
  -- Virtual clients that are sent an IRC message are to change none of these.
  pub identify-IsPassword :
      (c : ℕ) (password : Text) (s : Server)
      → (IsPassword env (s.clients c).nickname_lowercased password
          → ((identify env virt self c password s).clients c).user_state.is_identified ≡ true)
        × (¬ IsPassword env (s.clients c).nickname_lowercased password
            → (identify env virt self c password s).core ≡ s.core)
  identify-IsPassword c password s = (identify_right c password s, identify_wrong c password s)

  -- GHOST changes neither a client nor a channel nor a nickname unless the password is the one
  -- that the configuration has for the nickname. Virtual clients that are sent an IRC message are
  -- to change none of these.
  pub receive_command_ghost-wrong :
      (c : ℕ) (nickname password : Text) (s : Server)
      → ¬ IsPassword env (lowercased nickname) password
      → (receive_command_ghost env virt self c (nickname ∷ password ∷ []) s).core ≡ s.core
  unfolding receive_command_ghost ghost_client
  receive_command_ghost-wrong c nickname password s h =
      elim (Option-cases (lookup (lowercased nickname) s.nicknames)) [
        | inl e ↦ rw (receive_command_ghost, e) (core-send_notice env virt quiet c (some self) _ s)
        | inr (d, e) ↦
            rw (receive_command_ghost, e)
              (if_elim (λ (t : Server). t.core ≡ s.core) (not (is_network_client d s) || (d == c))
                (core-send_notice env virt quiet c (some self) _ s)
                (let (f, g) = verify_wrong c (lowercased nickname) password s h in rw (f) g))
      ]
