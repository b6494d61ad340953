-- ===== src/Range/Tests.antt =====
-- The unit tests of src/bus/range.rs, and its theorems on small ranges.
use vm_device.Prelude.{ℕ, ◌≡◌, ◌↔◌, ◌≤◌, ◌⊎◌, refl, some, ok, err, arith, true, Ordering}
use vm_device.Address.Mmio.{MmioAddress, mmio_address}
use vm_device.Address.Mmio
use vm_device.Address.Pio.{pio_address}
use vm_device.Bus.Errors.{invalid_range}
use vm_device.Range.{
  BusRange, new, last, overlaps, eq, partial_cmp, cmp, start, end, Contains, IsValid,
}
use vm_device.Range.Laws.{new_lem, overlaps_iff}
use vm_device.Range.Order.{cmp_consistent, cmp_of_disjoint}

abbrev low : BusRange MmioAddress
low = record { base = record { offset = 16 }; size = 16 }

abbrev middle : BusRange MmioAddress
middle = record { base = record { offset = 24 }; size = 16 }

abbrev high : BusRange MmioAddress
high = record { base = record { offset = 32 }; size = 16 }

low-IsValid : IsValid low
unfolding mmio_address Mmio.value
low-IsValid = omega arith

middle-IsValid : IsValid middle
unfolding mmio_address Mmio.value
middle-IsValid = omega arith

high-IsValid : IsValid high
unfolding mmio_address Mmio.value
high-IsValid = omega arith

-- A range of no addresses, one that ends at the top of the port space, and one that runs over it.
empty_range : new ⦃o = pio_address⦄ (record { offset = 1 }) 0 ≡ err invalid_range
unfolding new
empty_range = refl

new_lem_example :
    new ⦃o = pio_address⦄ (record { offset = 65520 }) 16
    ≡ ok (record { base = record { offset = 65520 }; size = 16 })
unfolding pio_address
new_lem_example = new_lem ⦃o = pio_address⦄ (record { offset = 65520 }) 16 (omega arith)

top_range : new ⦃o = pio_address⦄ (record { offset = 65520 }) 17 ≡ err invalid_range
unfolding new pio_address
top_range = refl

overlaps_iff_example : (overlaps low middle ≡ true) ↔ ((n : ℕ) × Contains low n × Contains middle n)
overlaps_iff_example = overlaps_iff low middle low-IsValid middle-IsValid

cmp_consistent_example :
    (partial_cmp low middle ≡ some (cmp low middle))
    × ((eq low middle ≡ true) ↔ (cmp low middle ≡ Ordering.eq))
    × ((cmp low middle ≡ Ordering.eq) ↔ (low.base ≡ middle.base))
cmp_consistent_example = cmp_consistent low middle

cmp_of_disjoint_example :
    ((cmp low high ≡ Ordering.lt) × (end low ≤ start high))
    ⊎ ((cmp low high ≡ Ordering.gt) × (end high ≤ start low))
unfolding overlaps last mmio_address
cmp_of_disjoint_example = cmp_of_disjoint low high low-IsValid high-IsValid refl
