-- ===== src/Assoc.antt =====
-- std::map, std::set and boost::ptr_map as association lists in the order of their keys. insert()
-- does nothing at a key that is there, as in C++.
use rosev_ircsystem.Common.{
  ℕ, ◌≡◌, refl, ◌↔◌, inl, inr, Bool, true, false, Option, none, some, List, [], ◌∷◌, arith, ltb,
  ==_iff, ◌==◌ as nat_eq, if◌then◌else◌, Option-cases,
}
use rosev_ircsystem.Text.{Text, text_eq, text_lt, text_eq_iff}

pub record Key {ℓ} (K : Type ℓ) : Type ℓ where
  pub eqb : K → K → Bool
  pub less : K → K → Bool
  pub eqb_iff : (a b : K) → (eqb a b ≡ true) ↔ (a ≡ b)

-- Pointers are ordered by address.
instance abbrev pub nat_key : Key ℕ
nat_key = record { eqb = nat_eq; less = ltb; eqb_iff = ==_iff }

instance abbrev pub text_key : Key Text
text_key = record { eqb = text_eq; less = text_lt; eqb_iff = text_eq_iff }

infix 50 ◌==◌
abbrev pub ◌==◌ {ℓ} : {K : Type ℓ} ⦃k : Key K⦄ → K → K → Bool
◌==◌ ⦃k⦄ = k.eqb

module _ {ℓ κ} {K : Type ℓ} {V : Type κ} ⦃key : Key K⦄ where
  unfoldable pub lookup : K → List (K × V) → Option V
  lookup k [] = none
  lookup k ((j, v) ∷ m) = if j == k then some v else lookup k m

  unfoldable pub place : K → V → List (K × V) → List (K × V)
  place k v [] = (k, v) ∷ []
  place k v ((j, w) ∷ m) =
      let rest = place k v m in if key.less k j then (k, v) ∷ (j, w) ∷ m else (j, w) ∷ rest

  unfoldable pub insert : K → V → List (K × V) → List (K × V)
  unfolding lookup place
  insert k v m = elim (lookup k m) [ none ↦ place k v m | some w ↦ m ]

  unfoldable pub erase : K → List (K × V) → List (K × V)
  erase k [] = []
  erase k ((j, w) ∷ m) = let rest = erase k m in if j == k then rest else (j, w) ∷ rest

  -- it->second = v, at a key that is there
  unfoldable pub assign : K → V → List (K × V) → List (K × V)
  assign k v [] = []
  assign k v ((j, w) ∷ m) = let rest = assign k v m in if j == k then (j, v) ∷ m else (j, w) ∷ rest

  pub lookup-place :
      (k j : K) (v : V) (m : List (K × V))
      → lookup k m ≡ none
      → lookup j (place k v m) ≡ (if k == j then some v else lookup j m)
  unfolding lookup place
  lookup-place k j v [] h = refl
  lookup-place k j v ((i, w) ∷ m) h =
      ground (arith, key.eqb_iff k j, key.eqb_iff i k, key.eqb_iff i j, lookup-place k j v m)

  pub lookup-erase :
      (k j : K) (m : List (K × V)) → lookup j (erase k m) ≡ (if k == j then none else lookup j m)
  unfolding lookup erase
  lookup-erase k j [] = ground arith
  lookup-erase k j ((i, w) ∷ m) =
      ground (arith, key.eqb_iff k j, key.eqb_iff i k, key.eqb_iff i j, lookup-erase k j m)

  pub lookup-assign :
      (k j : K) (v w : V) (m : List (K × V))
      → lookup k m ≡ some w
      → lookup j (assign k v m) ≡ (if k == j then some v else lookup j m)
  unfolding lookup assign
  lookup-assign k j v w [] h = cc
  lookup-assign k j v w ((i, u) ∷ m) h =
      ground (arith, key.eqb_iff k j, key.eqb_iff i k, key.eqb_iff i j, lookup-assign k j v w m)

  pub insert-of_none :
      (k : K) (v : V) (m : List (K × V)) → lookup k m ≡ none → insert k v m ≡ place k v m
  unfolding insert
  insert-of_none k v m h = rw (h, insert)

  pub insert-of_some : (k : K) (v w : V) (m : List (K × V)) → lookup k m ≡ some w → insert k v m ≡ m
  unfolding insert
  insert-of_some k v w m h = rw (h, insert)

  pub lookup-insert :
      (k j : K) (v : V) (m : List (K × V))
      → lookup k m ≡ none
      → lookup j (insert k v m) ≡ (if k == j then some v else lookup j m)
  lookup-insert k j v m h = rw (insert-of_none k v m h) (lookup-place k j v m h)

  -- Every key stands once.
  abbrev pub Distinct : List (K × V) → Type κ
  Distinct [] = Unit
  Distinct ((k, v) ∷ m) = (lookup k m ≡ none) × Distinct m

  pub place-Distinct :
      (k : K) (v : V) (m : List (K × V)) → lookup k m ≡ none → Distinct m → Distinct (place k v m)
  unfolding place lookup
  place-Distinct k v [] h d = (refl, tt)
  place-Distinct k v ((j, w) ∷ m) h d =
      ground (arith, key.eqb_iff k j, key.eqb_iff j k, lookup-place k j v m, place-Distinct k v m)

  pub erase-Distinct : (k : K) (m : List (K × V)) → Distinct m → Distinct (erase k m)
  unfolding erase
  erase-Distinct k [] d = tt
  erase-Distinct k ((j, w) ∷ m) d = ground (arith, lookup-erase k j m, erase-Distinct k m d.1)

-- A std::set is a map to the one value.
abbrev pub Set {ℓ} : Type ℓ → Type ℓ
Set K = List (K × Unit {0})

-- find(k) != end()
unfoldable pub has_key {ℓ κ} : {K : Type ℓ} {V : Type κ} ⦃key : Key K⦄ → K → List (K × V) → Bool
has_key k m = elim (lookup k m) [ none ↦ false | some w ↦ true ]

module _ {ℓ κ} {K : Type ℓ} {V : Type κ} ⦃key : Key K⦄ where
  pub has_key-of_some :
      (k : K) (m : List (K × V)) {v : V} → lookup k m ≡ some v → has_key k m ≡ true
  unfolding has_key
  has_key-of_some k m h = ground arith

  pub has_key-of_none : (k : K) (m : List (K × V)) → lookup k m ≡ none → has_key k m ≡ false
  unfolding has_key
  has_key-of_none k m h = ground arith

  pub has_key-erase :
      (k j : K) (m : List (K × V)) → has_key j (erase k m) ≡ (if k == j then false else has_key j m)
  unfolding has_key
  has_key-erase k j m = ground (arith, lookup-erase k j m)

  pub has_key-insert :
      (k j : K) (v : V) (m : List (K × V))
      → has_key j (insert k v m) ≡ (if k == j then true else has_key j m)
  unfolding has_key
  has_key-insert k j v m = elim (Option-cases (lookup k m)) [
    | inl e ↦ ground (arith, lookup-insert k j v m e)
    | inr (w, e) ↦ ground (arith, insert-of_some k v w m e, key.eqb_iff k j)
  ]
