-- ===== src/Address/Sums.antt =====
-- src/bus/address.rs: `+`, `-` and `checked_add` of the two address types, beside one another.
use vm_device.Prelude.{
  ℕ, ◌+◌, ◌^◌, ◌<◌, ◌≤◌, ◌≡◌, ◌↔◌, none, some, ltb, arith, Bool-cases, inl, inr,
}
use vm_device.Address.Mmio.{MmioAddress}
use vm_device.Address.Mmio
use vm_device.Address.Pio.{PioAddress}
use vm_device.Address.Pio

mmio_checked_add :
    (a b : MmioAddress) (v : ℕ)
    → ((Mmio.checked_add a v ≡ some b) ↔ ((Mmio.add a v ≡ b) × (b.offset ≡ a.offset + v)))
      × ((Mmio.checked_add a v ≡ none) ↔ (2 ^ 64 ≤ a.offset + v))
unfolding Mmio.checked_add Mmio.add
mmio_checked_add a b v = elim (Bool-cases (ltb (a.offset + v) (2 ^ 64))) [
  | inl fits ↦ ((λ e. ground arith, λ e. ground arith), (λ e. ground arith, λ e. ground arith))
  | inr out ↦ ((λ e. ground arith, λ e. ground arith), (λ e. ground arith, λ e. ground arith))
]

pio_checked_add :
    (a b : PioAddress) (v : ℕ)
    → ((Pio.checked_add a v ≡ some b) ↔ ((Pio.add a v ≡ b) × (b.offset ≡ a.offset + v)))
      × ((Pio.checked_add a v ≡ none) ↔ (2 ^ 16 ≤ a.offset + v))
unfolding Pio.checked_add Pio.add
pio_checked_add a b v = elim (Bool-cases (ltb (a.offset + v) (2 ^ 16))) [
  | inl fits ↦ ((λ e. ground arith, λ e. ground arith), (λ e. ground arith, λ e. ground arith))
  | inr out ↦ ((λ e. ground arith, λ e. ground arith), (λ e. ground arith, λ e. ground arith))
]

-- For both address types, `checked_add` returns an address exactly if `+` gives it and it lies at
-- the sum of the numbers, and none exactly if that sum does not fit the width.
pub checked_add_lem :
    (a b : MmioAddress) (p q : PioAddress) (v : ℕ)
    → (((Mmio.checked_add a v ≡ some b) ↔ ((Mmio.add a v ≡ b) × (b.offset ≡ a.offset + v)))
        × ((Mmio.checked_add a v ≡ none) ↔ (2 ^ 64 ≤ a.offset + v)))
      × ((Pio.checked_add p v ≡ some q) ↔ ((Pio.add p v ≡ q) × (q.offset ≡ p.offset + v)))
      × ((Pio.checked_add p v ≡ none) ↔ (2 ^ 16 ≤ p.offset + v))
checked_add_lem a b p q v =
    let (some_iff, none_iff) = pio_checked_add p q v in (mmio_checked_add a b v, some_iff, none_iff)

-- For both address types, where `+` and `-` wrap around: a difference added to the address it is
-- taken from leads to the other address, whichever is the higher, and a sum less its address is
-- the value that was added. This is for addresses and values that fit the width.
pub add-sub_lem :
    (a b : MmioAddress) (v : ℕ) (p q : PioAddress) (u : ℕ)
    → a.offset < 2 ^ 64
    → b.offset < 2 ^ 64
    → v < 2 ^ 64
    → p.offset < 2 ^ 16
    → q.offset < 2 ^ 16
    → u < 2 ^ 16
    → (Mmio.add a (Mmio.sub b a) ≡ b)
      × (Mmio.sub (Mmio.add a v) a ≡ v)
      × (Pio.add p (Pio.sub q p) ≡ q)
      × (Pio.sub (Pio.add p u) p ≡ u)
unfolding Mmio.add Mmio.sub Pio.add Pio.sub
add-sub_lem a b v p q u ha hb hv hp hq hu = (ground arith, ground arith, ground arith, ground arith)
