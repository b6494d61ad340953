-- ===== src/Range/Order.antt =====
-- src/bus/range.rs: the order by base address, which the map of a bus sorts its ranges by.
use vm_device.Prelude.{◌≤◌, ◌≡◌, ◌↔◌, ◌⊎◌, true, false, some, Ordering, arith}
use vm_device.Address.{BusAddress}
use vm_device.Range.{BusRange, overlaps, eq, partial_cmp, cmp, start, end, IsValid}
use vm_device.Range.Laws.{overlaps-ltb}

module _ {A : Type 0} ⦃o : BusAddress A⦄ where
  -- The three implementations agree, on all ranges: `partial_cmp` is `cmp`, and `==` holds
  -- exactly if `cmp` says equal, which is exactly if the ranges have one base.
  pub cmp_consistent :
      (r s : BusRange A)
      → (partial_cmp r s ≡ some (cmp r s))
        × ((eq r s ≡ true) ↔ (cmp r s ≡ Ordering.eq))
        × ((cmp r s ≡ Ordering.eq) ↔ (r.base ≡ s.base))
  unfolding eq partial_cmp cmp
  cmp_consistent r s = (
    ground (arith, o.cmp_value r.base s.base, o.partial_cmp_value r.base s.base),
    (
      λ e. ground (arith, o.cmp_value r.base s.base, o.eq_value r.base s.base),
      λ e. ground (arith, o.cmp_value r.base s.base, o.eq_value r.base s.base),
    ),
    (
      λ e. ground (arith, o.cmp_value r.base s.base, o.value_injective r.base s.base),
      λ e. rw e (ground (arith, o.cmp_value s.base s.base)),
    ),
  )

  -- Of two valid ranges that do not overlap, the one with the lesser base ends before the other
  -- begins, and they never compare as equal.
  pub cmp_of_disjoint :
      (r s : BusRange A)
      → IsValid r
      → IsValid s
      → overlaps r s ≡ false
      → ((cmp r s ≡ Ordering.lt) × (end r ≤ start s))
        ⊎ ((cmp r s ≡ Ordering.gt) × (end s ≤ start r))
  unfolding cmp
  cmp_of_disjoint r s v w e = ground (arith, overlaps-ltb r s v w, o.cmp_value r.base s.base)
