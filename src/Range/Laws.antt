-- ===== src/Range/Laws.antt =====
-- src/bus/range.rs: when a range is made, its last address, and when two ranges overlap.
use Prim.Native.Nat.{max}
use vm_device.Prelude.{
  ◌&&◌, ℕ, ◌+◌, ◌^◌, ◌<◌, ◌≡◌, ◌↔◌, ◌==◌, ◌||◌, true, ok, err, arith, ltb, if◌then◌else◌,
  Bool-cases, inl, inr,
}
use vm_device.Prelude.Word.{wrapping_sub, wrapping_sub-eq}
use vm_device.Address.{BusAddress, InBounds}
use vm_device.Address.Laws.{value-add, lt-ltb, gt-ltb}
use vm_device.Bus.Errors.{invalid_range}
use vm_device.Range.{BusRange, new, unit, last, overlaps, start, end, Contains, IsValid}

module _ {A : Type 0} ⦃o : BusAddress A⦄ where
  open o use {bits, value}

  -- `new` makes the range of the given base and size, exactly if the size is not zero and the last
  -- address fits the width; otherwise it reports an invalid range. This is for a size of the width.
  pub new_lem :
      (base : A) (size : ℕ)
      → size < 2 ^ bits
      → new base size ≡ (
          if size == 0 || ltb (2 ^ bits) (value base + size)
          then err invalid_range
          else ok (record { base = base; size = size }))
  unfolding new
  new_lem base size h = elim (Bool-cases (size == 0)) [
    | inl empty ↦ rw empty
    | inr some_size ↦
        let minus_one = wrapping_sub-eq bits size 1 h (ground arith) in
        ground (
          arith,
          minus_one,
          o.checked_add_some base (wrapping_sub bits size 1),
          o.checked_add_none base (wrapping_sub bits size 1),
        )
  ]

  pub new-IsValid :
      (base : A) (size : ℕ) {r : BusRange A} → size < 2 ^ bits → new base size ≡ ok r → IsValid r
  new-IsValid base size h e = ground (arith, new_lem base size h)

  pub unit-IsValid : (a : A) → InBounds a → IsValid (unit a)
  unfolding unit
  unit-IsValid a h = omega (arith, o.wide)

  -- The last address of a valid range is the number before its end, so that the sum in `last` does
  -- not overflow.
  pub value-last : (r : BusRange A) → IsValid r → value (last r) + 1 ≡ end r
  unfolding last
  value-last r v =
      let minus_one = wrapping_sub-eq bits r.size 1 v.bounded v.nonempty in
      omega (arith, minus_one, value-add r.base (wrapping_sub bits r.size 1))

  -- Whether two ranges overlap, by their ends as numbers.
  pub overlaps-ltb :
      (r s : BusRange A)
      → IsValid r
      → IsValid s
      → overlaps r s ≡ (ltb (start r) (end s) && ltb (start s) (end r))
  unfolding overlaps
  overlaps-ltb r s v w =
      ground (arith, gt-ltb r.base (last s), lt-ltb (last r) s.base, value-last r v, value-last s w)

  -- Two ranges overlap exactly if some address lies in both. This is for valid ranges.
  pub overlaps_iff :
      (r s : BusRange A)
      → IsValid r
      → IsValid s
      → (overlaps r s ≡ true) ↔ ((n : ℕ) × Contains r n × Contains s n)
  overlaps_iff r s v w = (
    λ e. (
      max (start r) (start s),
      ground (arith, overlaps-ltb r s v w),
      ground (arith, overlaps-ltb r s v w),
    ),
    λ e. ground (arith, overlaps-ltb r s v w),
  )
