-- ===== src/Range/UnitTests.antt =====
-- src/bus/range.rs: the unit test.
use vm_device.Prelude.{
  ℕ, ◌≡◌, ◌-◌, ◌^◌, refl, Bool, true, false, not, Ordering, Outcome, done, ◌==◌,
}
use vm_device.Prelude.Panic.{◌>>=◌, ◌>>◌, assert, unwrap, unwrap_ok, is_ok}
use vm_device.Address.{lt}
use vm_device.Address.Mmio
use vm_device.Address.Mmio.{MmioAddress, mmio_address}
use vm_device.Bus.Errors
use vm_device.Bus.Errors.{fails_with, invalid_range}
use vm_device.Range.{BusRange, new, unit, last, overlaps, eq, partial_cmp, cmp}

abbrev at : ℕ → MmioAddress
at n = record { offset = n }

-- The value `std::u64::MAX`.
abbrev max : ℕ
max = 2 ^ 64 - 1

abbrev same : Ordering → Ordering → Bool
same Ordering.lt Ordering.lt = true
same Ordering.eq Ordering.eq = true
same Ordering.gt Ordering.gt = true
same _ _ = false

-- The closure `overlaps`.
unfoldable pub overlaps_with : BusRange MmioAddress → ℕ → ℕ → Outcome Bool
overlaps_with range base_value len_value = do
  other ← unwrap_ok (new (at base_value) len_value)
  done (overlaps range other)

-- `assert!` of a closure's result.
abbrev assert_that : Outcome Bool → Outcome (Unit {0})
assert_that x = x >>= assert

abbrev assert_not : Outcome Bool → Outcome (Unit {0})
assert_not x = x >>= λ b. assert (not b)

unfoldable test_new : Outcome (Unit {0})
test_new = do
  assert (fails_with (new (at 0) 0) invalid_range)
  assert (is_ok (new (at 0) max))
  assert (is_ok (new (at 1) max))
  assert (fails_with (new (at 2) max) invalid_range)
  range ← unwrap_ok (new (at 0) 5)
  assert (Mmio.eq range.base (at 0))
  assert (range.size == 5)
  assert (Mmio.eq (last range) (at 4))
  assert (lt range.base (last range))
  let one = unit (at 0)
  assert (Mmio.eq one.base (at 0))
  assert (Mmio.eq (last one) one.base)

unfoldable test_overlaps : Outcome (Unit {0})
unfolding overlaps_with
test_overlaps = do
  range ← unwrap_ok (new (at 10) 10)
  assert_not (overlaps_with range 0 5)
  assert_not (overlaps_with range 0 10)
  assert_not (overlaps_with range 5 5)
  assert_that (overlaps_with range 0 11)
  assert_that (overlaps_with range 5 6)
  assert_that (overlaps_with range 5 10)
  assert_that (overlaps_with range 11 15)
  assert_that (overlaps_with range 5 35)
  assert_that (overlaps_with range 19 1)
  assert_that (overlaps_with range 19 10)
  assert_not (overlaps_with range 20 1)
  assert_not (overlaps_with range 30 10)

unfoldable test_traits : Outcome (Unit {0})
test_traits = do
  range ← unwrap_ok (new (at 10) 10)
  self_order ← unwrap (partial_cmp range range)
  assert (same (cmp range range) self_order)
  assert (same (cmp range range) Ordering.eq)
  longer ← unwrap_ok (new (at 10) 11)
  assert (eq range longer)
  longer_order ← unwrap (partial_cmp range longer)
  assert (same (cmp range longer) longer_order)
  assert (same (cmp range longer) Ordering.eq)
  next ← unwrap (Mmio.checked_add (at 10) 1)
  let other = unit next
  assert (not (eq range other))
  other_order ← unwrap (partial_cmp range other)
  assert (same (cmp range other) other_order)
  assert (same (cmp range other) Ordering.lt)

unfoldable pub test_bus_range : Outcome (Unit {0})
unfolding test_new test_overlaps test_traits
test_bus_range = do test_new; test_overlaps; test_traits

test_bus_range-done : test_bus_range ≡ done tt
unfolding test_bus_range Errors.eq new unit last overlaps eq partial_cmp cmp mmio_address Mmio.eq
    Mmio.checked_add
test_bus_range-done = refl
