-- ===== src/VoteBot/Tally.antt =====
-- The array of results of CVoteBot::_CheckVotes.
pub mod Counted
use rosev_ircsystem.Common.{
  ℕ, zero, suc, ◌+◌, ◌≤◌, ◌<◌, ◌≡◌, refl, Option, none, some, List, [], ◌∷◌, ◌==◌, if◌then◌else◌,
  arith, length, All,
}
use rosev_ircsystem.State.{VoteParameters}

-- new size_t[n], set to zero
unfoldable pub zeros : ℕ → List ℕ
zeros zero = []
zeros (suc n) = 0 ∷ zeros n

-- ++Results[i]; `none` is a write out of bounds.
unfoldable pub increment : List ℕ → ℕ → Option (List ℕ)
increment [] i = none
increment (n ∷ results) zero = some ((n + 1) ∷ results)
increment (n ∷ results) (suc i) = elim (increment results i) [
  | none ↦ none
  | some results' ↦ some (n ∷ results')
]

unfoldable pub tally_from : Option (List ℕ) → List (ℕ × VoteParameters) → Option (List ℕ)
tally_from results [] = results
tally_from results ((c, p) ∷ votes) =
    tally_from (elim results [ none ↦ none | some r ↦ increment r p.option ]) votes

-- The results of the votes, over the given number of options.
unfoldable pub tally : ℕ → List (ℕ × VoteParameters) → Option (List ℕ)
unfolding zeros increment tally_from
tally n votes = tally_from (some (zeros n)) votes
