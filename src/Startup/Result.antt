-- ===== src/Startup/Result.antt =====
-- The exceptions of exceptions.h, and a result in their place.
use rosev_ircsystem.Common.{ℕ, ◌≡◌, refl, ◌⊎◌, inl, inr, Bool, true, false, List}
use rosev_ircsystem.Text.{Text}

-- The additional error information: errinfo_file_name, ChannelName_Info, Passhash_Info,
-- errinfo_api_function and Win32Error_Info.
pub data ErrorInfo : Type 0 where
  file_name channel_name passhash api_function : Text → ErrorInfo
  win32_error : ℕ → ErrorInfo

-- `error` is the class Error with its message; `foreign` is an exception of boost.
pub data Exception : Type 0 where
  error : Text → List ErrorInfo → Exception
  foreign : Text → Exception

-- `err` carries the exception on its way to a handler.
pub data Result {ℓ} (A : Type ℓ) : Type ℓ where
  err : Exception → Result A
  ok : A → Result A

module _ {ℓ κ} {A : Type ℓ} {B : Type κ} where
  infixl 5 ◌>>=◌
  -- The statements behind one that may throw.
  abbrev pub ◌>>=◌ : Result A → (A → Result B) → Result B
  err thrown_before >>= rest = err thrown_before
  ok value >>= rest = rest value

infixl 5 ◌>>◌
abbrev pub ◌>>◌ {ℓ} : {B : Type ℓ} → Result (Unit {0}) → Result B → Result B
check >> rest = check >>= λ _. rest

-- BOOST_THROW_EXCEPTION under a condition.
abbrev pub throw_if : Bool → Exception → Result (Unit {0})
throw_if true e = err e
throw_if false e = ok tt

-- What a result that was not thrown satisfies.
pub data Returns {ℓ κ} {A : Type ℓ} (P : A → Type κ) : Result A → Type (ℓ ⊔ κ) where
  returned : {a : A} → P a → Returns P (ok a)
  thrown : {e : Exception} → Returns P (err e)

module _ {ℓ κ} {A : Type ℓ} {P : A → Type κ} where
  -- The rule of the sequence.
  infixl 1 ◌⟫◌
  pub ◌⟫◌ {μ ν} :
      {B : Type μ} {Q : B → Type ν} {m : Result A} {f : A → Result B}
      → Returns P m
      → ((a : A) → P a → Returns Q (f a))
      → Returns Q (m >>= f)
  returned {a} h ⟫ k = k a h
  thrown ⟫ k = thrown

  pub weaken {ν} :
      {Q : A → Type ν} {m : Result A} → ((a : A) → P a → Q a) → Returns P m → Returns Q m
  weaken g (returned {a} h) = returned (g a h)
  weaken g thrown = thrown

  pub of_ok : {a : A} → Returns P (ok a) → P a
  of_ok (returned h) = h

pub throw_if-Returns : (b : Bool) (e : Exception) → Returns (λ _. b ≡ false) (throw_if b e)
throw_if-Returns true e = thrown
throw_if-Returns false e = returned refl

-- Of a result of which nothing is known.
pub any_Returns {ℓ} : {A : Type ℓ} (m : Result A) → Returns (λ a. m ≡ ok a) m
any_Returns (ok a) = returned refl
any_Returns (err e) = thrown

pub Result-cases {ℓ} :
    {A : Type ℓ} (m : Result A) → ((a : A) × (m ≡ ok a)) ⊎ ((e : Exception) × (m ≡ err e))
Result-cases (ok a) = inl (a, refl)
Result-cases (err e) = inr (e, refl)
