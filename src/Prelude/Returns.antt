-- ===== src/Prelude/Returns.antt =====
-- Rust's `Result`, and a call that returns or panics.
use mathlib.Core.Option.{Option, none, some}
use mathlib.Core.Bool.{Bool, true, false}
use mathlib.Core.Path.{◌≡◌, refl}
use mathlib.Core.Logic.{◌⊎◌, ◌≢◌, inl, inr}

-- `std::result::Result<A, E>`.
pub data Result {ℓ κ} (A : Type ℓ) (E : Type κ) : Type (ℓ ⊔ κ) where
  ok : A → Result A E
  err : E → Result A E

-- The end of a call: it returns a value, or it panics.
pub data Outcome {ℓ} (A : Type ℓ) : Type ℓ where
  done : A → Outcome A
  panic : Outcome A

-- `e?` inside a function that returns a `Result`.
infixl 5 ◌>>=◌
abbrev pub ◌>>=◌ {ℓ κ μ} :
    {A : Type ℓ} {B : Type κ} {E : Type μ} → Result A E → (A → Result B E) → Result B E
ok a >>= f = f a
err e >>= f = err e

abbrev pub map_err {ℓ κ μ} :
    {A : Type ℓ} {E : Type κ} {F : Type μ} → (E → F) → Result A E → Result A F
map_err f (ok a) = ok a
map_err f (err e) = err (f e)

abbrev pub ok_or {ℓ κ} : {A : Type ℓ} {E : Type κ} → Option A → E → Result A E
ok_or none e = err e
ok_or (some a) e = ok a

-- `Option::filter` with a Boolean test.
abbrev pub filter_option {ℓ} : {A : Type ℓ} → (A → Bool) → Option A → Option A
filter_option p none = none
filter_option p (some a) = elim (p a) [ true ↦ some a | false ↦ none ]

-- To split on whether a call without a value has succeeded.
pub ok_or_not {κ} : {E : Type κ} (x : Result (Unit {0}) E) → (x ≡ ok tt) ⊎ (x ≢ ok tt)
ok_or_not (ok tt) = inl refl
ok_or_not (err e) = inr λ h. cc

pub Result-cases {ℓ κ} :
    {A : Type ℓ} {E : Type κ} (x : Result A E) → ((a : A) × (x ≡ ok a)) ⊎ ((e : E) × (x ≡ err e))
Result-cases (ok a) = inl (a, refl)
Result-cases (err e) = inr (e, refl)

-- A call without a value succeeds, fails or panics.
pub ending {κ} :
    {E : Type κ} (x : Outcome (Result (Unit {0}) E))
    → (x ≡ done (ok tt)) ⊎ ((e : E) × (x ≡ done (err e))) ⊎ (x ≡ panic)
ending (done (ok tt)) = inl refl
ending (done (err e)) = inr (inl (e, refl))
ending panic = inr (inr refl)

pub Outcome-cases {ℓ} : {A : Type ℓ} (x : Outcome A) → (x ≡ panic) ⊎ ((y : A) × (x ≡ done y))
Outcome-cases (done y) = inr (y, refl)
Outcome-cases panic = inl refl
