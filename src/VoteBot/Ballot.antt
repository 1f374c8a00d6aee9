-- ===== src/VoteBot/Ballot.antt =====
-- The votes of a VoteBot: what holds of them.
pub mod Preserved
pub mod Departures
pub mod Deadline
pub mod Orderly
pub mod Commands
pub mod Start
pub mod Private
use rosev_ircsystem.Common.{
  ℕ, zero, suc, ◌+◌, ◌-◌, ◌≤◌, ◌<◌, ◌≡◌, refl, sym, subst, ap, ◌∙◌, ◌≢◌, inl, inr, Bool, true,
  false, not, Option, none, some, List, [], ◌∷◌, ◌++◌, ◌==◌, arith, if◌then◌else◌, if_elim, leb,
  length, update, All, Bool-cases, Option-cases, ==_iff,
}
use rosev_ircsystem.Text.{Text, lit}
use rosev_ircsystem.Assoc.{nat_key, lookup, assign, erase, Distinct, erase-Distinct, lookup-assign}
use rosev_ircsystem.State.{
  Core, VoteBot, VoteParameters, Server, Environment, Virtual, with_vote_bot,
}
use rosev_ircsystem.Send.{is_network_kind}
use rosev_ircsystem.VoteBot.{cleared, check_votes, is_number, read_number}
use rosev_ircsystem.VoteBot.Tally.{tally}
use rosev_ircsystem.VoteBot.Tally.Counted.{InRange, tally-result}
use rosev_ircsystem.VoteBot.Steady.{
  IsSteady, IsPlain, Still, AreElectors, tell-Still, publish-cleared,
}
use rosev_ircsystem.VoteBot.Votes.{cast_vote, receive_vote, vote_deadline, remove_vote}

abbrev Votes : Type 0
Votes = List (ℕ × VoteParameters)

-- How many have voted.
unfoldable pub voted : Votes → ℕ
voted [] = 0
voted ((c, p) ∷ votes) = (if p.has_voted then 1 else 0) + voted votes

-- The vote count is the number of those who have voted, every vote is for an option, everybody has
-- one vote, and while there are voters, one of them has not voted.
pub record IsBallot (b : VoteBot) : Type 0 where
  pub counted : b.vote_count ≡ voted b.votes
  pub in_range : InRange (length b.options) b.votes
  pub distinct : Distinct b.votes
  pub pending : b.votes ≢ [] → b.vote_count < length b.votes

pub cleared-IsBallot : (b : VoteBot) → IsBallot (cleared b)
unfolding cleared voted
cleared-IsBallot b = record {
  counted = refl;
  in_range = tt;
  distinct = tt;
  pending = λ n. absurd (n refl);
}

pub voted-assign :
    (c : ℕ) (p q : VoteParameters) (votes : Votes)
    → lookup c votes ≡ some p
    → voted (assign c q votes) + (if p.has_voted then 1 else 0)
      ≡ voted votes + (if q.has_voted then 1 else 0)
unfolding voted assign lookup
voted-assign c p q [] e = cc
voted-assign c p q ((d, r) ∷ votes) e = elim (Bool-cases (d == c)) [
  | inl h ↦ ground (arith, e, h)
  | inr h ↦ ground (arith, e, h, voted-assign c p q votes)
]

pub length-assign :
    (c : ℕ) (q : VoteParameters) (votes : Votes) → length (assign c q votes) ≡ length votes
unfolding assign
length-assign c q [] = refl
length-assign c q ((d, r) ∷ votes) = ground (arith, length-assign c q votes)

pub assign-All :
    (P : ℕ × VoteParameters → Type 0) (c : ℕ) (q : VoteParameters) (votes : Votes)
    → ((d : ℕ) → (d == c) ≡ true → P (d, q))
    → All P votes
    → All P (assign c q votes)
unfolding assign
assign-All P c q [] f h = tt
assign-All P c q ((d, r) ∷ votes) f h = elim (Bool-cases (d == c)) [
  | inl e ↦ rw (e, assign) (f d e, h.1)
  | inr e ↦ rw (e, assign) (h.0, assign-All P c q votes f h.1)
]

pub erase-All :
    (P : ℕ × VoteParameters → Type 0) (c : ℕ) (votes : Votes) → All P votes → All P (erase c votes)
unfolding erase
erase-All P c [] h = tt
erase-All P c ((d, r) ∷ votes) h = elim (Bool-cases (d == c)) [
  | inl e ↦ rw (e, erase) (erase-All P c votes h.1)
  | inr e ↦ rw (e, erase) (h.0, erase-All P c votes h.1)
]

lookup-absent :
    (c d : ℕ) (q : VoteParameters) (votes : Votes)
    → lookup d votes ≡ none
    → lookup d (assign c q votes) ≡ none
unfolding lookup assign
lookup-absent c d q [] e = refl
lookup-absent c d q ((a, r) ∷ votes) e =
    ground (arith, e, ==_iff a c, ==_iff a d, lookup-absent c d q votes)

pub assign-Distinct :
    (c : ℕ) (q : VoteParameters) (votes : Votes) → Distinct votes → Distinct (assign c q votes)
unfolding assign
assign-Distinct c q [] h = tt
assign-Distinct c q ((d, r) ∷ votes) h = elim (Bool-cases (d == c)) [
  | inl e ↦ rw (e, assign) h
  | inr e ↦ rw (e, assign) (lookup-absent c d q votes h.0, assign-Distinct c q votes h.1)
]

-- Nobody has voted twice, and a voter who is there is erased.
erase-absent : (c : ℕ) (votes : Votes) → lookup c votes ≡ none → erase c votes ≡ votes
unfolding erase lookup
erase-absent c [] e = refl
erase-absent c ((d, r) ∷ votes) e = ground (arith, e, ==_iff d c, erase-absent c votes)

pub erase-counts :
    (c : ℕ) (p : VoteParameters) (votes : Votes)
    → Distinct votes
    → lookup c votes ≡ some p
    → (voted (erase c votes) + (if p.has_voted then 1 else 0) ≡ voted votes)
      × (length (erase c votes) + 1 ≡ length votes)
unfolding voted erase lookup
erase-counts c p [] u e = cc
erase-counts c p ((d, r) ∷ votes) u e = elim (Bool-cases (d == c)) [
  | inl h ↦ ground (arith, e, h, u.0, ==_iff d c, erase-absent c votes)
  | inr h ↦ ground (arith, e, h, erase-counts c p votes u.1)
]

pub voted-length : (votes : Votes) → voted votes ≤ length votes
unfolding voted
voted-length [] = omega arith
voted-length ((c, p) ∷ votes) = ground (arith, voted-length votes)

-- The same, whoever has not voted.
pub record IsCounted (b : VoteBot) : Type 0 where
  pub counted : b.vote_count ≡ voted b.votes
  pub in_range : InRange (length b.options) b.votes
  pub distinct : Distinct b.votes

-- The bot after a client that has voted votes for another option, after the first vote of a client,
-- and after a client has left.
abbrev pub changed : VoteBot → ℕ → ℕ → VoteParameters → VoteBot
changed b c n p = record b { votes = assign c (record p { option = n }) b.votes }

abbrev pub cast : VoteBot → ℕ → ℕ → VoteBot
cast b c n = record b {
  votes = assign c (record { has_voted = true; option = n }) b.votes;
  vote_count = b.vote_count + 1;
}

abbrev pub left : VoteBot → ℕ → VoteParameters → VoteBot
left b c p = record b {
  vote_count = (if p.has_voted then b.vote_count - 1 else b.vote_count);
  votes = erase c b.votes;
}

pub changed-IsCounted :
    (b : VoteBot) (c n : ℕ) (p : VoteParameters)
    → IsBallot b
    → lookup c b.votes ≡ some p
    → p.has_voted ≡ true
    → n < length b.options
    → IsCounted (changed b c n p)
changed-IsCounted b c n p v e h l = record {
  counted = ground (arith, v.counted, h, voted-assign c p (record p { option = n }) b.votes e);
  in_range =
      assign-All (λ w. w.1.option < length b.options) c (record p { option = n }) b.votes (λ d _. l)
        v.in_range;
  distinct = assign-Distinct c (record p { option = n }) b.votes v.distinct;
}

pub cast-IsCounted :
    (b : VoteBot) (c n : ℕ) (p : VoteParameters)
    → IsBallot b
    → lookup c b.votes ≡ some p
    → p.has_voted ≡ false
    → n < length b.options
    → IsCounted (cast b c n)
cast-IsCounted b c n p v e h l = record {
  counted =
      ground
        (arith, v.counted, h, voted-assign c p (record { has_voted = true; option = n }) b.votes e);
  in_range =
      assign-All (λ w. w.1.option < length b.options) c (record { has_voted = true; option = n })
        b.votes (λ d _. l) v.in_range;
  distinct = assign-Distinct c (record { has_voted = true; option = n }) b.votes v.distinct;
}

-- A client with a vote leaves.
pub left-IsCounted :
    (b : VoteBot) (c : ℕ) (p : VoteParameters)
    → IsBallot b
    → lookup c b.votes ≡ some p
    → IsCounted (left b c p)
left-IsCounted b c p v e = record {
  counted = ground (arith, v.counted, erase-counts c p b.votes v.distinct e);
  in_range = erase-All (λ w. w.1.option < length b.options) c b.votes v.in_range;
  distinct = erase-Distinct c b.votes v.distinct;
}
