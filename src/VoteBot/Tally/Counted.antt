-- ===== src/VoteBot/Tally/Counted.antt =====
-- The results of CVoteBot::_CheckVotes against a count of the votes.
use rosev_ircsystem.Common.{
  ℕ, zero, suc, ◌+◌, ◌<◌, ◌≡◌, refl, some, List, [], ◌∷◌, ◌==◌, if◌then◌else◌, arith, length, All,
}
use rosev_ircsystem.State.{VoteParameters}
use rosev_ircsystem.VoteBot.Tally.{zeros, increment, tally_from, tally}

-- Results[i]
pub result_at : List ℕ → ℕ → ℕ
result_at [] i = 0
result_at (n ∷ results) zero = n
result_at (n ∷ results) (suc i) = result_at results i

-- How many of the votes are for the option.
pub votes_for : ℕ → List (ℕ × VoteParameters) → ℕ
votes_for i [] = 0
votes_for i ((c, p) ∷ votes) = (if p.option == i then 1 else 0) + votes_for i votes

-- Each vote is for one of the options.
abbrev pub InRange : ℕ → List (ℕ × VoteParameters) → Type 0
InRange n votes = All (λ (v : ℕ × VoteParameters). v.1.option < n) votes

first_result :
    (n : ℕ) (results : List ℕ) (j : ℕ)
    → result_at ((n + 1) ∷ results) j ≡ (if 0 == j then 1 else 0) + result_at (n ∷ results) j
unfolding result_at
first_result n results zero = omega arith
first_result n results (suc j) = ground arith

next_result :
    (n : ℕ) (r results : List ℕ) (i : ℕ)
    → ((j : ℕ) → result_at r j ≡ (if i == j then 1 else 0) + result_at results j)
    → (j : ℕ) → result_at (n ∷ r) j ≡ (if suc i == j then 1 else 0) + result_at (n ∷ results) j
unfolding result_at
next_result n r results i f zero = ground arith
next_result n r results i f (suc j) = ground (arith, f j)

increment-result :
    (results : List ℕ) (i : ℕ)
    → i < length results
    → (r : List ℕ) × (increment results i ≡ some r)
      × (length r ≡ length results)
      × ((j : ℕ) → result_at r j ≡ (if i == j then 1 else 0) + result_at results j)
unfolding increment result_at
increment-result [] i h = absurd (omega arith)
increment-result (n ∷ results) zero h = ((n + 1) ∷ results, refl, refl, first_result n results)
increment-result (n ∷ results) (suc i) h =
    let (r, e, l, f) = increment-result results i (omega arith) in
    (n ∷ r, rw (e) refl, rw (l) refl, next_result n r results i f)

tally_from-result :
    (results : List ℕ) (votes : List (ℕ × VoteParameters))
    → InRange (length results) votes
    → (r : List ℕ) × (tally_from (some results) votes ≡ some r)
      × (length r ≡ length results)
      × ((j : ℕ) → result_at r j ≡ votes_for j votes + result_at results j)
unfolding tally_from votes_for
tally_from-result results [] h = (results, refl, refl, λ j. omega arith)
tally_from-result results ((c, p) ∷ votes) (h, hs) =
    let (r, e, l, f) = increment-result results p.option h in
    let (r', e', l', f') = tally_from-result r votes (rw (l) hs) in
    (r', rw (e) e', rw (l', l) refl, λ j. omega (arith, f j, f' j))

length-zeros : (n : ℕ) → length (zeros n) ≡ n
unfolding zeros
length-zeros zero = refl
length-zeros (suc n) = ap_suc (length-zeros n)
  where
    ap_suc : {a b : ℕ} → a ≡ b → suc a ≡ suc b
    ap_suc e = cc

result_at-zeros : (n j : ℕ) → result_at (zeros n) j ≡ 0
unfolding zeros result_at
result_at-zeros zero j = refl
result_at-zeros (suc n) zero = refl
result_at-zeros (suc n) (suc j) = result_at-zeros n j

-- If each vote is for one of the n options, the tally writes nothing out of bounds, has one result
-- for each option, and the result of an option is the number of votes for it.
pub tally-result :
    (n : ℕ) (votes : List (ℕ × VoteParameters))
    → InRange n votes
    → (r : List ℕ) × (tally n votes ≡ some r)
      × (length r ≡ n)
      × ((j : ℕ) → result_at r j ≡ votes_for j votes)
unfolding tally
tally-result n votes h =
    let (r, e, l, f) = tally_from-result (zeros n) votes (rw (length-zeros n) h) in
    (r, e, rw (l, length-zeros n) refl, λ j. omega (arith, f j, result_at-zeros n j))
