-- ===== src/Server/Connection/Welcome.antt =====
-- The welcome and SetUserState on the server's maps.
use rosev_ircsystem.Common.{
  ℕ, ◌≡◌, refl, ◌∙◌, ◌≢◌, inl, inr, true, not, List, [], ◌∷◌, arith, if_elim, Option-cases,
}
use rosev_ircsystem.Text.{Text}
use rosev_ircsystem.Assoc.{text_key, lookup}
use rosev_ircsystem.State.{UserState, Server, Environment, Virtual, with_client}
use rosev_ircsystem.Send.{is_registered, set_user_state}
use rosev_ircsystem.Send.Core.{
  IsQuiet, core-send_numeric_reply, core-send_notices, core-send_irc_message,
  core-restart_identify_timer, core-restart_ping_timer,
}
use rosev_ircsystem.Server.Membership.{change_client}
use rosev_ircsystem.Server.Membership.Preserved.{set_user_state-Inv}
use rosev_ircsystem.Server.Membership.Ready.{IsLive, IsLive-same}
use rosev_ircsystem.Server.Connection.{
  check_for_preset_nickname, send_motd, receive_message_motd, welcome_client,
}

-- SetUserState on the maps.
pub core-set_user_state :
    (state : UserState) (c : ℕ) (s : Server)
    → (set_user_state state c s).core
      ≡ change_client (λ client. record client { user_state = state }) c s.core
unfolding set_user_state with_client change_client
core-set_user_state state c s =
    if_elim
      (λ (t : Server).
        t.core ≡ change_client (λ client. record client { user_state = state }) c s.core)
      state.is_identified (core-restart_ping_timer c _) refl

pub set_user_state-IsLive :
    (state : UserState) (c : ℕ) (s : Server)
    → (state.has_sent_nick_message ≡ true → (s.clients c).nickname ≢ [])
    → IsLive c s.core
    → IsLive c (set_user_state state c s).core
set_user_state-IsLive state c s filled r = IsLive-same (core-set_user_state state c s) (record {
  inv = set_user_state-Inv c state s.core filled r.inv;
  alive = unfold change_client in ground (arith, r.alive);
})

module _ (env : Environment) (virt : Virtual) (quiet : IsQuiet virt) where
  core-send_motd :
      (c : ℕ) (motd : List Text) (s : Server) → (send_motd env virt c motd s).core ≡ s.core
  unfolding send_motd
  core-send_motd c [] s = refl
  core-send_motd c (line ∷ motd) s =
      core-send_motd c motd _ ∙ core-send_numeric_reply env virt quiet c _ _ s

  pub core-receive_message_motd :
      (c : ℕ) (parameters : List Text) (s : Server)
      → (receive_message_motd env virt c parameters s).core ≡ s.core
  unfolding receive_message_motd
  core-receive_message_motd c parameters s =
      if_elim (λ (t : Server). t.core ≡ s.core) (not (is_registered c s)) refl
        (core-send_numeric_reply env virt quiet c _ _ _
          ∙ core-send_motd c env.motd _
          ∙ core-send_numeric_reply env virt quiet c _ _ s)

  pub core-check_for_preset_nickname :
      (c : ℕ) (s : Server) → (check_for_preset_nickname env virt c s).core ≡ s.core
  unfolding check_for_preset_nickname
  core-check_for_preset_nickname c s =
      elim (Option-cases (lookup (s.clients c).nickname_lowercased env.user_passhash_map)) [
        | inl e ↦ rw (e, check_for_preset_nickname) (core-restart_ping_timer c s)
        | inr (hash, e) ↦
            rw (e, check_for_preset_nickname)
              (core-restart_identify_timer c _ ∙ core-send_notices env virt quiet c _ _ s)
      ]

  pub core-welcome_client : (c : ℕ) (s : Server) → (welcome_client env virt c s).core ≡ s.core
  unfolding welcome_client
  core-welcome_client c s =
      core-check_for_preset_nickname c _
      ∙ core-send_irc_message env virt quiet c _ _
      ∙ core-receive_message_motd c [] _
      ∙ core-send_numeric_reply env virt quiet c _ _ _
      ∙ core-send_numeric_reply env virt quiet c _ _ _
      ∙ core-send_numeric_reply env virt quiet c _ _ _
      ∙ core-send_numeric_reply env virt quiet c _ _ s
