-- ===== src/VoteBot/Quiet/Answers.antt =====
-- The commands and the other private messages to VoteBot change neither channels nor nicknames nor
-- clients.
use rosev_ircsystem.Common.{
  ℕ, ◌≡◌, ◌∙◌, Bool, true, false, not, ◌&&◌, ◌||◌, Option, none, some, List, [], ◌∷◌, is_empty,
  if_elim,
}
use rosev_ircsystem.Text.{Text, lit, lowercased, uppercased, text_eq}
use rosev_ircsystem.Assoc.{nat_key, text_key, has_key, Set}
use rosev_ircsystem.State.{ClientStatus, Core, Server, Environment, Virtual}
use rosev_ircsystem.Send.{is_network_kind}
use rosev_ircsystem.Send.Core.{core-send_notices}
use rosev_ircsystem.Server.Rooms.{has_to_identify}
use rosev_ircsystem.VoteBot.{tell, is_vote_prepared, send_to_channel, excluded_member, may_vote}
use rosev_ircsystem.VoteBot.Commands.{
  receive_command_cancel, receive_command_exclude, receive_command_new, receive_command_help, ask,
  collect_voters, report, report_excluded, receive_command_start, is_some,
}
use rosev_ircsystem.VoteBot.Messages.{
  enter_value, receive_other, receive_exclusive, receive_from_admin, receive_private_message,
  is_exclusive,
}
use rosev_ircsystem.VoteBot.Quiet.{
  IsReserved, core-with_vote_bot, tell_kept, tell_all_kept, reset_kept, send_to_channel_kept,
  is_vote_prepared_kept, receive_vote_kept,
}

module _ (env : Environment) (virt : Virtual) (reserved : IsReserved virt) (self : ℕ) (k : Core)
    (virtual : is_network_kind (k.clients self).kind ≡ false) where
  told : (c : ℕ) (m : Text) (s : Server) → s.core ≡ k → (tell env virt self c m s).core ≡ k
  told = tell_kept env virt reserved self k virtual

  said : (m : Text) (s : Server) → s.core ≡ k → (send_to_channel env virt self m s).core ≡ k
  said = send_to_channel_kept env virt reserved self k virtual

  cancel_kept :
      (c : ℕ) (s : Server) → s.core ≡ k → (receive_command_cancel env virt self c s).core ≡ k
  unfolding receive_command_cancel
  cancel_kept c s e =
      if_elim (λ (t : Server). t.core ≡ k) (is_empty (s.vote_bots self).current_admin_nickname)
        (told c _ s e)
        (told c _ _ (
          reset_kept env virt reserved self k virtual _
            (if_elim (λ (t : Server). t.core ≡ k) (s.vote_bots self).vote_started (said _ s e) e)))

  prepared_kept :
      (c : ℕ) (s : Server) → s.core ≡ k → (is_vote_prepared env virt self c s).1.core ≡ k
  prepared_kept = is_vote_prepared_kept env virt reserved self k virtual

  exclude_kept :
      (c : ℕ) (s : Server) → s.core ≡ k → (receive_command_exclude env virt self c s).core ≡ k
  unfolding receive_command_exclude
  exclude_kept c s e =
      if_elim (λ (t : Server). t.core ≡ k) (s.vote_bots self).vote_started (told c _ s e)
        (if_elim (λ (t : Server). t.core ≡ k) (is_vote_prepared env virt self c s).0
          (core-with_vote_bot _ self _ ∙ told c _ _ (prepared_kept c s e)) (prepared_kept c s e))

  new_kept : (c : ℕ) (s : Server) → s.core ≡ k → (receive_command_new env virt self c s).core ≡ k
  unfolding receive_command_new
  new_kept c s e =
      if_elim (λ (t : Server). t.core ≡ k) (s.vote_bots self).vote_started (told c _ s e)
        (if_elim (λ (t : Server). t.core ≡ k) (not (is_empty (s.vote_bots self).question))
          (told c _ s e)
          (core-with_vote_bot _ self _
            ∙ reset_kept env virt reserved self k virtual _ (told c _ s e)))

  help_kept : (c : ℕ) (s : Server) → s.core ≡ k → (receive_command_help env virt self c s).core ≡ k
  unfolding receive_command_help
  help_kept c s e = core-send_notices env virt reserved.quiet c (some self) _ s ∙ e

  ask_kept : (c : ℕ) (s : Server) → s.core ≡ k → (ask env virt self c s).core ≡ k
  unfolding ask
  ask_kept c s e = tell_all_kept env virt reserved self k virtual c _ s e

  collect_kept :
      (members : List (ℕ × ClientStatus)) (s : Server)
      → s.core ≡ k
      → (collect_voters env virt self members s).core ≡ k
  unfolding collect_voters
  collect_kept [] s e = e
  collect_kept ((c, st) ∷ members) s e = collect_kept members _ (
      if_elim (λ (t : Server). t.core ≡ k) (may_vote (s.vote_bots self) s c st)
        (ask_kept c _ (core-with_vote_bot _ self s ∙ e)) e)

  report_kept :
      (first : Bool) (o : Option ℕ) (s : Server)
      → s.core ≡ k
      → (report env virt self first o s).core ≡ k
  unfolding report
  report_kept first none s e = e
  report_kept first (some d) s e =
      said _ _ (if_elim (λ (t : Server). t.core ≡ k) first (said _ s e) e)

  report_excluded_kept :
      (first : Bool) (members : List (ℕ × ClientStatus)) (excluded : Set Text) (s : Server)
      → s.core ≡ k
      → (report_excluded env virt self first members excluded s).core ≡ k
  unfolding report_excluded
  report_excluded_kept first members [] s e = e
  report_excluded_kept first members ((n, _) ∷ excluded) s e =
      report_excluded_kept (first && not (is_some (excluded_member s members n))) members excluded _
        (report_kept first _ s e)

  start_kept :
      (c : ℕ) (s : Server) → s.core ≡ k → (receive_command_start env virt self c s).core ≡ k
  unfolding receive_command_start
  start_kept c s e =
      if_elim (λ (t : Server). t.core ≡ k) (is_vote_prepared env virt self c s).0
        (if_elim (λ (t : Server). t.core ≡ k) _
          (reset_kept env virt reserved self k virtual _
            (told c _ _ (collect_kept _ _ (prepared_kept c s e))))
          (core-with_vote_bot _ self _
            ∙ report_excluded_kept true _ _ _ (said _ _ (collect_kept _ _ (prepared_kept c s e)))))
        (prepared_kept c s e)

  enter_value_kept :
      (c : ℕ) (m : Text) (s : Server) → s.core ≡ k → (enter_value env virt self c m s).core ≡ k
  unfolding enter_value
  enter_value_kept c m s e =
      let b = s.vote_bots self in
      if_elim (λ (t : Server). t.core ≡ k)
        (is_empty b.question && not (is_empty b.current_admin_nickname))
        (told c _ _ (core-with_vote_bot _ self s ∙ e))
        (if_elim (λ (t : Server). t.core ≡ k)
          (not (is_empty b.question) && not b.exclude_command_sent)
          (told c _ _ (core-with_vote_bot _ self s ∙ e))
          (if_elim (λ (t : Server). t.core ≡ k) b.exclude_command_sent
            (if_elim (λ (t : Server). t.core ≡ k) (has_key (lowercased m) b.excluded_nicknames)
              (told c _ s e) (told c _ _ (core-with_vote_bot _ self s ∙ e)))
            (told c _ s e)))

  other_kept :
      (c : ℕ) (m : Text) (s : Server) → s.core ≡ k → (receive_other env virt self c m s).core ≡ k
  unfolding receive_other
  other_kept c m s e =
      if_elim (λ (t : Server). t.core ≡ k) (s.vote_bots self).vote_started
        (receive_vote_kept env virt reserved self k virtual c m s e) (told c _ s e)

  exclusive_kept :
      (c : ℕ) (command m : Text) (s : Server)
      → s.core ≡ k
      → (receive_exclusive env virt self c command m s).core ≡ k
  unfolding receive_exclusive
  exclusive_kept c command m s e =
      if_elim (λ (t : Server). t.core ≡ k)
        (not (is_empty (s.vote_bots self).current_admin_nickname)
          && not (text_eq (s.vote_bots self).current_admin_nickname (s.clients c).nickname))
        (tell_all_kept env virt reserved self k virtual c _ s e)
        (if_elim (λ (t : Server). t.core ≡ k) (text_eq command (lit "EXCLUDE")) (exclude_kept c s e)
          (if_elim (λ (t : Server). t.core ≡ k) (text_eq command (lit "NEW")) (new_kept c s e)
            (if_elim (λ (t : Server). t.core ≡ k) (text_eq command (lit "START")) (start_kept c s e)
              (enter_value_kept c m s e))))

  from_admin_kept :
      (c : ℕ) (command m : Text) (s : Server)
      → s.core ≡ k
      → (receive_from_admin env virt self c command m s).core ≡ k
  unfolding receive_from_admin
  from_admin_kept c command m s e =
      if_elim (λ (t : Server). t.core ≡ k) (text_eq command (lit "CANCEL")) (cancel_kept c s e)
        (if_elim (λ (t : Server). t.core ≡ k) (text_eq command (lit "HELP")) (help_kept c s e)
          (if_elim (λ (t : Server). t.core ≡ k)
            (is_exclusive env virt self command || not (s.vote_bots self).vote_started)
            (exclusive_kept c command m s e) (other_kept c m s e)))

  pub receive_private_message_kept :
      (c : ℕ) (m : Text) (s : Server)
      → s.core ≡ k
      → (receive_private_message env virt self c m s).core ≡ k
  unfolding receive_private_message
  receive_private_message_kept c m s e =
      if_elim (λ (t : Server). t.core ≡ k) (has_to_identify env c s) (told c _ s e)
        (if_elim (λ (t : Server). t.core ≡ k)
          (has_key (s.clients c).nickname_lowercased (s.vote_bots self).admin_users)
          (from_admin_kept c (uppercased m) m s e) (other_kept c m s e))
