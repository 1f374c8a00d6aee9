-- ===== src/Text.antt =====
-- std::string as a list of bytes: comparison, tolower and toupper of the C locale, splitting.
use Prim.Native.Char.{code}
use Prim.Native.Nat.{◌/◌, ◌%◌}
use rosev_ircsystem.Common.{
  ℕ, zero, suc, ◌+◌, ◌-◌, ◌*◌, String, ◌≡◌, refl, ◌≢◌, ◌↔◌, Bool, true, false, ◌&&◌, Option, none,
  some, List, [], ◌∷◌, ◌++◌, map, arith, leb, ltb, ◌==◌, if◌then◌else◌,
}

abbrev pub Text : Type 0
Text = List ℕ

-- The bytes of a literal of the source.
unfoldable pub lit : String → Text
lit String.[] = []
lit (String.◌∷◌ c s) = code c ∷ lit s

-- operator== on std::string
unfoldable pub text_eq : Text → Text → Bool
text_eq [] [] = true
text_eq [] (d ∷ t) = false
text_eq (c ∷ s) [] = false
text_eq (c ∷ s) (d ∷ t) = (c == d) && text_eq s t

-- operator< on std::string, the order of the keys of a std::map
unfoldable pub text_lt : Text → Text → Bool
text_lt s [] = false
text_lt [] (d ∷ t) = true
text_lt (c ∷ s) (d ∷ t) = let rest = text_lt s t in if c == d then rest else ltb c d

pub text_eq_iff : (s t : Text) → (text_eq s t ≡ true) ↔ (s ≡ t)
unfolding text_eq
text_eq_iff [] [] = (λ _. refl, λ _. refl)
text_eq_iff [] (d ∷ t) = (λ p. cc, λ p. cc)
text_eq_iff (c ∷ s) [] = (λ p. cc, λ p. cc)
text_eq_iff (c ∷ s) (d ∷ t) =
    (λ p. ground (arith, text_eq_iff s t), λ p. ground (arith, text_eq_iff s t))

pub text_eq_refl : (s : Text) → text_eq s s ≡ true
text_eq_refl s = (text_eq_iff s s).1 refl

unfoldable pub tolower : ℕ → ℕ
tolower c = if leb b'A' c && leb c b'Z' then c + 32 else c

unfoldable pub toupper : ℕ → ℕ
toupper c = if leb b'a' c && leb c b'z' then c - 32 else c

-- std::transform(s.begin(), s.end(), s.begin(), tolower)
unfoldable pub lowercased : Text → Text
unfolding tolower
lowercased = map tolower

unfoldable pub uppercased : Text → Text
unfolding toupper
uppercased = map toupper

pub tolower_idem : (c : ℕ) → tolower (tolower c) ≡ tolower c
unfolding tolower
tolower_idem c = ground arith

pub lowercased_idem : (s : Text) → lowercased (lowercased s) ≡ lowercased s
unfolding lowercased
lowercased_idem [] = refl
lowercased_idem (c ∷ s) = cc (tolower_idem c, lowercased_idem s)

-- In front of the first piece.
unfoldable pub cons_head : ℕ → List Text → List Text
cons_head c [] = (c ∷ []) ∷ []
cons_head c (w ∷ ws) = (c ∷ w) ∷ ws

-- The pieces between the separators, empty ones kept: what a loop over find_first_of(sep) and
-- substr yields.
unfoldable pub split : ℕ → Text → List Text
unfolding cons_head
split sep [] = [] ∷ []
split sep (c ∷ s) = let rest = split sep s in if c == sep then [] ∷ rest else cons_head c rest

-- The part of a text up to the first separator, and what follows it, if there is one.
unfoldable pub find_first_of : ℕ → Text → Option Text
find_first_of sep [] = none
find_first_of sep (c ∷ s) = let rest = find_first_of sep s in if c == sep then some s else rest

-- The text does not hold the byte.
abbrev pub Free : ℕ → Text → Type 0
Free b [] = Unit
Free b (c ∷ s) = (c ≢ b) × Free b s

pub split-ne_nil : (sep : ℕ) (s : Text) → split sep s ≢ []
unfolding split
split-ne_nil sep [] e = cc
split-ne_nil sep (c ∷ s) e = ground arith

pub split-Free : (sep : ℕ) (s : Text) → Free sep s → split sep s ≡ s ∷ []
unfolding split
split-Free sep [] h = refl
split-Free sep (c ∷ s) h = ground (arith, split-Free sep s h.1)

pub split-append : (sep : ℕ) (s t : Text) → Free sep s → split sep (s ++ sep ∷ t) ≡ s ∷ split sep t
unfolding split
split-append sep [] t h = ground arith
split-append sep (c ∷ s) t h = ground (arith, split-append sep s t h.1)

-- %u
unfoldable pub digits_of : ℕ → ℕ → Text → Text
digits_of zero n acc = acc
digits_of (suc fuel) n acc =
    let rest = digits_of fuel (n / 10) ((48 + n % 10) ∷ acc) in if n == 0 then acc else rest

unfoldable pub decimal : ℕ → Text
unfolding digits_of
decimal n = if n == 0 then 48 ∷ [] else digits_of n n []

-- The value of a text of decimal digits.
unfoldable pub number_from : ℕ → Text → ℕ
number_from n [] = n
number_from n (c ∷ s) = number_from (n * 10 + (c - 48)) s
