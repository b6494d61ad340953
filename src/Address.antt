-- ===== src/Address.antt =====
-- src/bus/address.rs: the trait `BusAddress` with its supertraits, as an interface.
-- The value type `V` is an unsigned integer of `bits` bits; a value is a number below 2 ^ bits.
pub mod Mmio
pub mod Pio
pub mod Laws
pub mod Sums
pub mod Overflow
pub mod UnitTests
mod Tests
use vm_device.Prelude.{
  ℕ, ◌+◌, ◌^◌, ◌<◌, ◌≤◌, ◌≡◌, compare, Ordering, Bool, true, false, Option, none, some, ◌==◌, arith,
}
use vm_device.Prelude.Word.{wrapping_add, wrapping_sub}

-- What the implementations of the trait have in common: they act on the inner value.
pub record IsLawful {A : Type 0} (bits : ℕ) (eq : A → A → Bool)
    (partial_cmp : A → A → Option Ordering) (cmp : A → A → Ordering) (add : A → ℕ → A)
    (sub : A → A → ℕ) (value : A → ℕ) (checked_add : A → ℕ → Option A) : Type 0 where
  -- `From<u8>` is total.
  pub wide : 255 < 2 ^ bits
  pub value_injective : (a b : A) → value a ≡ value b → a ≡ b
  pub eq_value : (a b : A) → eq a b ≡ (value a == value b)
  pub partial_cmp_value : (a b : A) → partial_cmp a b ≡ some (compare (value a) (value b))
  pub cmp_value : (a b : A) → cmp a b ≡ compare (value a) (value b)
  pub value_add : (a : A) (v : ℕ) → value (add a v) ≡ wrapping_add bits (value a) v
  pub sub_value : (a b : A) → sub a b ≡ wrapping_sub bits (value a) (value b)
  pub checked_add_some : (a : A) (v : ℕ) → value a + v < 2 ^ bits → checked_add a v ≡ some (add a v)
  pub checked_add_none : (a : A) (v : ℕ) → 2 ^ bits ≤ value a + v → checked_add a v ≡ none

pub record BusAddress (A : Type 0) : Type 0 where
  pub bits : ℕ
  pub eq : A → A → Bool
  pub partial_cmp : A → A → Option Ordering
  pub cmp : A → A → Ordering
  pub add : A → ℕ → A
  pub sub : A → A → ℕ
  pub value : A → ℕ
  pub checked_add : A → ℕ → Option A
  pub lawful : IsLawful bits eq partial_cmp cmp add sub value checked_add
  pub open lawful use *

module _ {A : Type 0} ⦃o : BusAddress A⦄ where
  -- The operators `<`, `>` and `>=`, which Rust derives from `partial_cmp`.
  abbrev pub lt : A → A → Bool
  lt a b = elim (o.partial_cmp a b) [ some Ordering.lt ↦ true | _ ↦ false ]

  abbrev pub gt : A → A → Bool
  gt a b = elim (o.partial_cmp a b) [ some Ordering.gt ↦ true | _ ↦ false ]

  abbrev pub ge : A → A → Bool
  ge a b = elim (o.partial_cmp a b) [
    | some Ordering.gt ↦ true
    | some Ordering.eq ↦ true
    | _ ↦ false
  ]

  -- The inner value fits its type.
  abbrev pub InBounds : A → Type 0
  InBounds a = o.value a < 2 ^ o.bits
