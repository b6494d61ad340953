-- ===== src/Range/Overflow.antt =====
-- src/bus/range.rs: `BusRange` in a build with overflow checks, and what it returns on the
-- ranges that `new` makes.
use vm_device.Prelude.{
  ℕ, ◌≡◌, ◌<◌, ◌^◌, ◌-◌, ◌==◌, not, Bool, false, Outcome, done, Result, ok, err, none, some, arith,
  if◌then◌else◌,
}
use vm_device.Prelude.Panic.{◌>>=◌}
use vm_device.Prelude.Word.{wrapping_sub-eq}
use vm_device.Address.{BusAddress, lt, gt}
use vm_device.Address.Overflow.{sub_value, add, add-done}
use vm_device.Bus.Errors.{Error, invalid_range}
use vm_device.Range
use vm_device.Range.{BusRange, IsValid}

module _ {A : Type 0} ⦃o : BusAddress A⦄ where
  unfoldable pub new : A → ℕ → Outcome (Result (BusRange A) Error)
  new base size = if size == 0 then done (err invalid_range) else (do
    minus_one ← sub_value size 1
    done (elim (o.checked_add base minus_one) [
      | none ↦ err invalid_range
      | some _ ↦ ok (record { base = base; size = size })
    ]))

  unfoldable pub last : BusRange A → Outcome A
  last r = do minus_one ← sub_value r.size 1; add r.base minus_one

  -- `||` evaluates its right side only where the left is false.
  unfoldable pub overlaps : BusRange A → BusRange A → Outcome Bool
  overlaps r other = do
    end ← last other
    if gt r.base end then done false else (do own_end ← last r; done (not (lt own_end other.base)))

  pub new-done :
      (base : A) (size : ℕ) → size < 2 ^ o.bits → new base size ≡ done (Range.new base size)
  unfolding new Range.new sub_value
  new-done base size h = ground (arith, wrapping_sub-eq o.bits size 1 h)

  pub last-done : (r : BusRange A) → IsValid r → last r ≡ done (Range.last r)
  unfolding last Range.last sub_value
  last-done r v =
      ground
        (arith, wrapping_sub-eq o.bits r.size 1 v.bounded v.nonempty, add-done r.base (r.size - 1))

  pub overlaps-done :
      (r s : BusRange A) → IsValid r → IsValid s → overlaps r s ≡ done (Range.overlaps r s)
  unfolding overlaps Range.overlaps
  overlaps-done r s v w = rw (last-done s w, last-done r v) (ground arith)
