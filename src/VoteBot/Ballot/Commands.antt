-- ===== src/VoteBot/Ballot/Commands.antt =====
-- The commands CANCEL, EXCLUDE, NEW and HELP, and what an administrator enters, keep what holds of the votes.
use rosev_ircsystem.Common.{
  ℕ, ◌≤◌, ◌≡◌, refl, Bool, true, not, ◌&&◌, [], ◌∷◌, ◌++◌, arith, if_elim, if_cases, is_empty, ltb,
  length, length-append,
}
use rosev_ircsystem.Text.{Text, lowercased}
use rosev_ircsystem.Assoc.{nat_key, text_key, insert, has_key}
use rosev_ircsystem.State.{Core, Server, Environment, Virtual}
use rosev_ircsystem.Send.{is_network_kind}
use rosev_ircsystem.VoteBot.{is_vote_prepared}
use rosev_ircsystem.VoteBot.Steady.{IsSteady}
use rosev_ircsystem.VoteBot.Quiet.{IsReserved}
use rosev_ircsystem.VoteBot.Ballot.Preserved.{IsSpeaker}
use rosev_ircsystem.VoteBot.Commands.{
  receive_command_cancel, receive_command_exclude, receive_command_new, receive_command_help,
}
use rosev_ircsystem.VoteBot.Messages.{enter_value}
use rosev_ircsystem.VoteBot.Ballot.Orderly.{
  IsOrderly, tell-IsOrderly, say-IsOrderly, other-IsOrderly, reset-IsOrderly, notices-IsOrderly,
}

module _ (env : Environment) (virt : Virtual) (steady : IsSteady virt) (reserved : IsReserved virt)
    (self : ℕ) (k : Core) (speaker : IsSpeaker k self) where
  abbrev Orderly : Server → Type 0
  Orderly = IsOrderly env virt steady reserved self k speaker

  pub cancel-IsOrderly :
      (c : ℕ) (t : Server)
      → is_network_kind (k.clients c).kind ≡ true
      → Orderly t
      → Orderly (receive_command_cancel env virt self c t)
  unfolding receive_command_cancel
  cancel-IsOrderly c t n r =
      if_elim Orderly (is_empty (t.vote_bots self).current_admin_nickname)
        (tell-IsOrderly env virt steady reserved self k speaker c _ t n r)
        (tell-IsOrderly env virt steady reserved self k speaker c _ _ n (
          reset-IsOrderly env virt steady reserved self k speaker _ (
            if_elim Orderly (t.vote_bots self).vote_started
              (say-IsOrderly env virt steady reserved self k speaker _ t r) r)))

  -- Behind _IsVotePrepared.
  pub prepared-IsOrderly :
      (c : ℕ) (t : Server)
      → is_network_kind (k.clients c).kind ≡ true
      → Orderly t
      → Orderly (is_vote_prepared env virt self c t).1
  unfolding is_vote_prepared
  prepared-IsOrderly c t n r =
      if_elim (λ (u : Bool × Server). Orderly u.1) (is_empty (t.vote_bots self).question)
        (tell-IsOrderly env virt steady reserved self k speaker c _ t n r)
        (if_elim (λ (u : Bool × Server). Orderly u.1) (ltb (length (t.vote_bots self).options) 3)
          (tell-IsOrderly env virt steady reserved self k speaker c _ t n r) r)

  pub prepared-options :
      (c : ℕ) (t : Server)
      → (is_vote_prepared env virt self c t).0 ≡ true
      → 3 ≤ length ((is_vote_prepared env virt self c t).1.vote_bots self).options
  unfolding is_vote_prepared
  prepared-options c t =
      if_elim (λ (u : Bool × Server). u.0 ≡ true → 3 ≤ length (u.1.vote_bots self).options)
        (is_empty (t.vote_bots self).question) (λ e. ground (arith, e))
        (if_cases (λ (u : Bool × Server). u.0 ≡ true → 3 ≤ length (u.1.vote_bots self).options)
          (ltb (length (t.vote_bots self).options) 3) _ _ (λ _ e. ground (arith, e))
          (λ h _. ground (arith, h)))

  pub exclude-IsOrderly :
      (c : ℕ) (t : Server)
      → is_network_kind (k.clients c).kind ≡ true
      → Orderly t
      → Orderly (receive_command_exclude env virt self c t)
  unfolding receive_command_exclude
  exclude-IsOrderly c t n r =
      if_elim Orderly (t.vote_bots self).vote_started
        (tell-IsOrderly env virt steady reserved self k speaker c _ t n r)
        (if_elim Orderly (is_vote_prepared env virt self c t).0
          (other-IsOrderly env virt steady reserved self k speaker
            (λ b. record b { exclude_command_sent = true }) _ (λ b. omega arith) (λ b. refl)
            (λ b. refl)
            (tell-IsOrderly env virt steady reserved self k speaker c _ _ n
              (prepared-IsOrderly c t n r)))
          (prepared-IsOrderly c t n r))

  pub new-IsOrderly :
      (c : ℕ) (t : Server)
      → is_network_kind (k.clients c).kind ≡ true
      → Orderly t
      → Orderly (receive_command_new env virt self c t)
  unfolding receive_command_new
  new-IsOrderly c t n r =
      if_elim Orderly (t.vote_bots self).vote_started
        (tell-IsOrderly env virt steady reserved self k speaker c _ t n r)
        (if_elim Orderly (not (is_empty (t.vote_bots self).question))
          (tell-IsOrderly env virt steady reserved self k speaker c _ t n r)
          (other-IsOrderly env virt steady reserved self k speaker
            (λ b. record b {
              options = b.options ++ b.abstention_translation ∷ [];
              current_admin_nickname = (t.clients c).nickname;
            })
            _ (λ b. omega (arith, length-append b.options (b.abstention_translation ∷ [])))
            (λ b. refl) (λ b. refl)
            (reset-IsOrderly env virt steady reserved self k speaker _
              (tell-IsOrderly env virt steady reserved self k speaker c _ t n r))))

  pub help-IsOrderly :
      (c : ℕ) (t : Server)
      → is_network_kind (k.clients c).kind ≡ true
      → Orderly t
      → Orderly (receive_command_help env virt self c t)
  unfolding receive_command_help
  help-IsOrderly c t n r = notices-IsOrderly env virt steady reserved self k speaker c _ _ t n r

  pub enter_value-IsOrderly :
      (c : ℕ) (m : Text) (t : Server)
      → is_network_kind (k.clients c).kind ≡ true
      → Orderly t
      → Orderly (enter_value env virt self c m t)
  unfolding enter_value
  enter_value-IsOrderly c m t n r =
      if_elim Orderly
        (is_empty (t.vote_bots self).question
          && not (is_empty (t.vote_bots self).current_admin_nickname))
        (tell-IsOrderly env virt steady reserved self k speaker c _ _ n (
          other-IsOrderly env virt steady reserved self k speaker (λ b. record b { question = m }) t
            (λ b. omega arith) (λ b. refl) (λ b. refl) r))
        (if_elim Orderly
          (not (is_empty (t.vote_bots self).question)
            && not (t.vote_bots self).exclude_command_sent)
          (tell-IsOrderly env virt steady reserved self k speaker c _ _ n (
            other-IsOrderly env virt steady reserved self k speaker
              (λ b. record b { options = b.options ++ m ∷ [] }) t
              (λ b. omega (arith, length-append b.options (m ∷ []))) (λ b. refl) (λ b. refl) r))
          (if_elim Orderly (t.vote_bots self).exclude_command_sent
            (if_elim Orderly (has_key (lowercased m) (t.vote_bots self).excluded_nicknames)
              (tell-IsOrderly env virt steady reserved self k speaker c _ t n r)
              (tell-IsOrderly env virt steady reserved self k speaker c _ _ n (
                other-IsOrderly env virt steady reserved self k speaker
                  (λ b. record b {
                    excluded_nicknames = insert (lowercased m) tt b.excluded_nicknames;
                  })
                  t (λ b. omega arith) (λ b. refl) (λ b. refl) r)))
            (tell-IsOrderly env virt steady reserved self k speaker c _ t n r)))
