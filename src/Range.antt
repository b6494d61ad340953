-- ===== src/Range.antt =====
-- src/bus/range.rs: `BusRange`, an interval in the address space of a bus.
pub mod Laws
pub mod Overflow
pub mod Order
pub mod UnitTests
mod Tests
use vm_device.Prelude.{
  ℕ, ◌+◌, ◌^◌, ◌<◌, ◌≤◌, ◌==◌, ◌||◌, not, Bool, Option, Ordering, Result, ok, err, ◌>>=◌, ok_or,
  if◌then◌else◌,
}
use vm_device.Prelude.Word.{wrapping_sub}
use vm_device.Address.{BusAddress, lt, gt, InBounds}
use vm_device.Bus.Errors.{Error, invalid_range}

pub record BusRange (A : Type 0) : Type 0 where
  pub base : A
  pub size : ℕ

module _ {A : Type 0} ⦃o : BusAddress A⦄ where
  unfoldable pub new : A → ℕ → Result (BusRange A) Error
  new base size = if size == 0 then err invalid_range else (do
    _ ← ok_or (o.checked_add base (wrapping_sub o.bits size 1)) invalid_range
    ok (record { base = base; size = size }))

  unfoldable pub unit : A → BusRange A
  unit base = record { base = base; size = 1 }

  unfoldable pub last : BusRange A → A
  last r = o.add r.base (wrapping_sub o.bits r.size 1)

  unfoldable pub overlaps : BusRange A → BusRange A → Bool
  unfolding last
  overlaps r other = not (gt r.base (last other) || lt (last r) other.base)

  unfoldable pub eq : BusRange A → BusRange A → Bool
  eq r other = o.eq r.base other.base

  unfoldable pub partial_cmp : BusRange A → BusRange A → Option Ordering
  partial_cmp r other = o.partial_cmp r.base other.base

  unfoldable pub cmp : BusRange A → BusRange A → Ordering
  cmp r other = o.cmp r.base other.base

  -- The first address of a range, as a number, and the number after its last address.
  abbrev pub start : BusRange A → ℕ
  start r = o.value r.base

  abbrev pub end : BusRange A → ℕ
  end r = o.value r.base + r.size

  abbrev pub Contains : BusRange A → ℕ → Type 0
  Contains r n = (start r ≤ n) × (n < end r)

  -- What every range that the module hands out satisfies: it is not empty, and its size and its
  -- last address fit the width of the bus.
  pub record IsValid (r : BusRange A) : Type 0 where
    pub nonempty : 0 < r.size
    pub bounded : r.size < 2 ^ o.bits
    pub fits : end r ≤ 2 ^ o.bits
