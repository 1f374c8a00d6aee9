-- ===== src/VoteBot/Ballot/Start.antt =====
-- START keeps what holds of the votes.
use rosev_ircsystem.Common.{
  ℕ, ◌+◌, ◌≤◌, ◌<◌, ◌≡◌, refl, sym, subst, ap, ◌∙◌, inl, inr, Bool, true, false, not, ◌&&◌, Option,
  none, some, List, [], ◌∷◌, ◌++◌, arith, if◌then◌else◌, if_elim, if_cases, is_empty, length,
  update_same, All, Option-cases,
}
use rosev_ircsystem.Text.{Text, lit}
use rosev_ircsystem.Assoc.{
  nat_key, text_key, lookup, insert, place, Set, place-Distinct, insert-of_none, insert-of_some,
}
use rosev_ircsystem.State.{
  ClientStatus, Core, VoteBot, VoteParameters, Server, Environment, Virtual, with_vote_bot,
}
use rosev_ircsystem.Send.{is_network_kind}
use rosev_ircsystem.VoteBot.{
  tell, tell_all, reset, send_to_channel, is_vote_prepared, channel_members, may_vote,
  excluded_member,
}
use rosev_ircsystem.VoteBot.Steady.{IsSteady, Still, tell-Still}
use rosev_ircsystem.VoteBot.Quiet.{IsReserved}
use rosev_ircsystem.VoteBot.Ballot.{voted, voted-length}
use rosev_ircsystem.VoteBot.Ballot.Preserved.{IsSpeaker, IsFair}
use rosev_ircsystem.VoteBot.Commands.{
  receive_command_start, is_some, ask, collect_voters, report, report_excluded,
}
use rosev_ircsystem.VoteBot.Ballot.Commands.{prepared-IsOrderly, prepared-options}
use rosev_ircsystem.VoteBot.Ballot.Orderly.{
  other-IsFair, IsOrderly, kept-IsOrderly, tell-IsOrderly, say-IsOrderly, change-IsOrderly,
  other-IsOrderly, reset-IsOrderly,
}

place-All :
    (P : ℕ × VoteParameters → Type 0) (c : ℕ) (q : VoteParameters)
    (votes : List (ℕ × VoteParameters))
    → P (c, q)
    → All P votes
    → All P (place c q votes)
unfolding place
place-All P c q [] p h = (p, tt)
place-All P c q ((d, r) ∷ votes) p h =
    if_elim (All P) (nat_key.less c d) {x = (c, q) ∷ (d, r) ∷ votes} {y = (d, r) ∷ place c q votes}
      (p, h) (h.0, place-All P c q votes p h.1)

place-counts :
    (c : ℕ) (q : VoteParameters) (votes : List (ℕ × VoteParameters))
    → (voted (place c q votes) ≡ (if q.has_voted then 1 else 0) + voted votes)
      × (length (place c q votes) ≡ length votes + 1)
unfolding place voted
place-counts c q [] = ground arith
place-counts c q ((d, r) ∷ votes) = ground (arith, place-counts c q votes)

-- A new voter, who has not voted.
insert-IsFair :
    (k : Core) (b : VoteBot) (c : ℕ)
    → is_network_kind (k.clients c).kind ≡ true
    → 0 < length b.options
    → IsFair k b
    → IsFair k (record b { votes = insert c (record { has_voted = false; option = 0 }) b.votes })
insert-IsFair k b c n l v = elim (Option-cases (lookup c b.votes)) [
  | inr (p, e) ↦
      other-IsFair k b _ (omega arith) refl
        (insert-of_some c (record { has_voted = false; option = 0 }) p b.votes e) v
  | inl e ↦
      subst (λ votes. IsFair k (record b { votes = votes }))
        (sym (insert-of_none c (record { has_voted = false; option = 0 }) b.votes e))
        (record {
          ballot = record {
            counted = ground (
              arith,
              v.ballot.counted,
              place-counts c (record { has_voted = false; option = 0 }) b.votes,
            );
            in_range =
                place-All (λ w. w.1.option < length b.options) c
                  (record { has_voted = false; option = 0 }) b.votes l v.ballot.in_range;
            distinct =
                place-Distinct c (record { has_voted = false; option = 0 }) b.votes e
                  v.ballot.distinct;
            pending = λ _. ground (
              arith,
              v.ballot.counted,
              voted-length b.votes,
              place-counts c (record { has_voted = false; option = 0 }) b.votes,
            );
          };
          electors =
              place-All (λ w. is_network_kind (k.clients w.0).kind ≡ true) c
                (record { has_voted = false; option = 0 }) b.votes n v.electors;
        })
]

module _ (env : Environment) (virt : Virtual) (steady : IsSteady virt) (reserved : IsReserved virt)
    (self : ℕ) (k : Core) (speaker : IsSpeaker k self) where
  abbrev Orderly : Server → Type 0
  Orderly = IsOrderly env virt steady reserved self k speaker

  tell_all-Still :
      (v : ℕ → VoteBot) (c : ℕ) (ms : List Text) (t : Server)
      → is_network_kind (k.clients c).kind ≡ true
      → Still k v t
      → Still k v (tell_all env virt self c ms t)
  unfolding tell_all
  tell_all-Still v c [] t n h = h
  tell_all-Still v c (m ∷ ms) t n h =
      tell_all-Still v c ms _ n
        (tell-Still env virt steady k v self speaker.virtual speaker.plain c m t n h)

  -- In front of START: there are options.
  record IsPosed (t : Server) : Type 0 where
    pub orderly : Orderly t
    pub options : 0 < length (t.vote_bots self).options

  kept-IsPosed : (t u : Server) → IsPosed t → Still k t.vote_bots u → IsPosed u
  kept-IsPosed t u r h = record {
    orderly = kept-IsOrderly env virt steady reserved self k speaker t u r.orderly h;
    options = subst (λ (w : ℕ → VoteBot). 0 < length (w self).options) (sym h.1) r.options;
  }

  added-IsPosed :
      (c : ℕ) (t : Server)
      → is_network_kind (k.clients c).kind ≡ true
      → IsPosed t
      → IsPosed (
          with_vote_bot
            (λ b. record b { votes = insert c (record { has_voted = false; option = 0 }) b.votes })
            self
            t)
  unfolding with_vote_bot
  added-IsPosed c t n r = record {
    orderly =
        change-IsOrderly env virt steady reserved self k speaker
          (λ b. record b { votes = insert c (record { has_voted = false; option = 0 }) b.votes }) t
          r.orderly.same (insert-IsFair k (t.vote_bots self) c n r.options r.orderly.fair);
    options =
        subst (λ (b : VoteBot). 0 < length b.options)
          (sym (
            update_same t.vote_bots self (record (t.vote_bots self) {
              votes = insert c (record { has_voted = false; option = 0 }) (t.vote_bots self).votes;
            })))
          r.options;
  }

  may_vote-network :
      (c : ℕ) (st : ClientStatus) (t : Server)
      → t.core ≡ k
      → may_vote (t.vote_bots self) t c st ≡ true
      → is_network_kind (k.clients c).kind ≡ true
  unfolding may_vote
  may_vote-network c st t e h =
      sym (ap (λ j. is_network_kind (j.clients c).kind) e) ∙ ground (arith, h)

  collect_voters-IsPosed :
      (members : List (ℕ × ClientStatus)) (t : Server)
      → IsPosed t
      → IsPosed (collect_voters env virt self members t)
  unfolding collect_voters ask
  collect_voters-IsPosed [] t r = r
  collect_voters-IsPosed ((c, st) ∷ members) t r = collect_voters-IsPosed members _ (
      if_cases IsPosed (may_vote (t.vote_bots self) t c st) _ t
        (λ h. kept-IsPosed _ _ (added-IsPosed c t (may_vote-network c st t r.orderly.same h) r) (
          tell_all-Still _ c _ _ (may_vote-network c st t r.orderly.same h)
            ((added-IsPosed c t (may_vote-network c st t r.orderly.same h) r).orderly.same, refl)))
        (λ _. r))

  report-IsOrderly :
      (first : Bool) (o : Option ℕ) (t : Server)
      → Orderly t
      → Orderly (report env virt self first o t)
  unfolding report
  report-IsOrderly first none t r = r
  report-IsOrderly first (some d) t r =
      say-IsOrderly env virt steady reserved self k speaker _ _
        (if_elim Orderly first (say-IsOrderly env virt steady reserved self k speaker _ t r) r)

  report_excluded-IsOrderly :
      (first : Bool) (members : List (ℕ × ClientStatus)) (excluded : Set Text) (t : Server)
      → Orderly t
      → Orderly (report_excluded env virt self first members excluded t)
  unfolding report_excluded
  report_excluded-IsOrderly first members [] t r = r
  report_excluded-IsOrderly first members ((nickname, _) ∷ excluded) t r =
      report_excluded-IsOrderly (first && not (is_some (excluded_member t members nickname)))
        members excluded _ (report-IsOrderly first (excluded_member t members nickname) t r)

  pub start-IsOrderly :
      (c : ℕ) (t : Server)
      → is_network_kind (k.clients c).kind ≡ true
      → Orderly t
      → Orderly (receive_command_start env virt self c t)
  unfolding receive_command_start
  start-IsOrderly c t n r =
      if_cases Orderly (is_vote_prepared env virt self c t).0 _ _
        (λ h.
          started-IsOrderly
            (collect_voters-IsPosed _ _ (record {
              orderly = prepared-IsOrderly env virt steady reserved self k speaker c t n r;
              options = posed_lem (prepared-options env virt steady reserved self k speaker c t h);
            })).orderly)
        (λ _. prepared-IsOrderly env virt steady reserved self k speaker c t n r)
    where
      posed_lem : {i : ℕ} → 3 ≤ i → 0 < i
      posed_lem l = omega (arith, l)

      started-IsOrderly :
          {u : Server}
          → Orderly u
          → Orderly (
              let b = u.vote_bots self in
              if is_empty b.votes
              then reset env virt self (
                  tell env virt self c
                    (lit "Nobody can participate in the vote. Resetting all values.")
                    u)
              else with_vote_bot
                  (λ b. record b { timer = some b.time_limit_in_minutes; vote_started = true })
                  self
                  (report_excluded env virt self true
                    (channel_members
                      ((is_vote_prepared env virt self c t).1.vote_bots self).channel
                      (is_vote_prepared env virt self c t).1)
                    b.excluded_nicknames
                    (send_to_channel env virt self
                      (b.current_admin_nickname
                        ++ lit
                            " has set up a vote and I'm asking all participating members in private messages now.")
                      u)))
      started-IsOrderly {u} q =
          if_elim Orderly (is_empty (u.vote_bots self).votes)
            (reset-IsOrderly env virt steady reserved self k speaker _
              (tell-IsOrderly env virt steady reserved self k speaker c _ u n q))
            (other-IsOrderly env virt steady reserved self k speaker
              (λ b. record b { timer = some b.time_limit_in_minutes; vote_started = true }) _
              (λ b. omega arith) (λ b. refl) (λ b. refl)
              (report_excluded-IsOrderly true _ _ _
                (say-IsOrderly env virt steady reserved self k speaker _ u q)))
