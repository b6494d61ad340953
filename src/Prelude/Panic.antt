-- ===== src/Prelude/Panic.antt =====
-- Calls that may panic, one after the other, and what the unit tests of the source use.
use Prim.Native.Nat.{ℕ, zero, suc}
use mathlib.Core.Bool.{Bool, true, false}
use mathlib.Core.Option.{Option, none, some}
use vm_device.Prelude.Returns.{Result, ok, err, Outcome, done, panic}

infixl 5 ◌>>=◌ ◌>>◌
abbrev pub ◌>>=◌ {ℓ κ} : {A : Type ℓ} {B : Type κ} → Outcome A → (A → Outcome B) → Outcome B
done a >>= f = f a
panic >>= f = panic

abbrev pub ◌>>◌ {κ} : {B : Type κ} → Outcome (Unit {0}) → Outcome B → Outcome B
m >> k = m >>= λ _. k

-- `assert!`
abbrev pub assert : Bool → Outcome (Unit {0})
assert true = done tt
assert false = panic

-- `Option::unwrap` and `Result::unwrap`
abbrev pub unwrap {ℓ} : {A : Type ℓ} → Option A → Outcome A
unwrap none = panic
unwrap (some a) = done a

abbrev pub unwrap_ok {ℓ κ} : {A : Type ℓ} {E : Type κ} → Result A E → Outcome A
unwrap_ok (ok a) = done a
unwrap_ok (err e) = panic

abbrev pub is_ok {ℓ κ} : {A : Type ℓ} {E : Type κ} → Result A E → Bool
is_ok (ok a) = true
is_ok (err e) = false

abbrev pub is_err {ℓ κ} : {A : Type ℓ} {E : Type κ} → Result A E → Bool
is_err (ok a) = false
is_err (err e) = true

abbrev pub is_none {ℓ} : {A : Type ℓ} → Option A → Bool
is_none none = true
is_none (some a) = false

-- `for i in from..from + count`, with a state that the body changes.
abbrev pub for_each {ℓ} : {S : Type ℓ} → ℕ → ℕ → (ℕ → S → Outcome S) → S → Outcome S
for_each from zero body s = done s
for_each from (suc count) body s = body from s >>= λ s'. for_each (suc from) count body s'
