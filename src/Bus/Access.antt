-- ===== src/Bus/Access.antt =====
-- src/bus/mod.rs: `Bus::check_access`.
use vm_device.Prelude.{
  ℕ, ◌≤◌, ◌<◌, ◌+◌, ◌-◌, ◌^◌, ◌≡◌, ◌↔◌, ◌||◌, ◌==◌, refl, Option, none, some, ltb, leb, arith, inl,
  inr, if◌then◌else◌, Option-cases, Result, ok, err, ok_or, filter_option,
}
use vm_device.Address.{BusAddress, ge}
use vm_device.Address.Laws.{ge-leb}
use vm_device.Range
use vm_device.Range.{BusRange, start, end, last, Contains}
use vm_device.Range.Laws.{new_lem, new-IsValid, value-last}
use vm_device.Bus.{Bus, check_access}
use vm_device.Bus.Errors.{Error, device_not_found, invalid_range, invalid_access_length}
use vm_device.Bus.View.{find-bounds, find_whole, IsValid, view}
use vm_device.Bus.Lookup.{device-view}

-- An entry grants an access that ends before the number if its range does not end earlier.
abbrev pub granted :
    {A D : Type 0} ⦃o : BusAddress A⦄ → Option (BusRange A × D) → ℕ → Result (BusRange A × D) Error
granted none n = err device_not_found
granted (some (r, d)) n = if leb n (end r) then ok (r, d) else err device_not_found

module _ {A D : Type 0} ⦃o : BusAddress A⦄ (b : Bus A D) (addr : A) (len : ℕ) (v : IsValid b) where
  open o use {bits, value}

  granted_by_last :
      (e : Option (BusRange A × D)) {s : BusRange A}
      → view b (value addr) ≡ e
      → Range.IsValid s
      → end s ≡ value addr + len
      → ok_or (filter_option (λ pair. ge (last pair.0) (last s)) e) device_not_found
        ≡ granted e (value addr + len)
  unfolding view
  granted_by_last none h w q = refl
  granted_by_last (some (r, d)) {s} h w q =
      let (_, valid, _) = find-bounds (value addr) 0 b.devices r d v.chain h in
      ground (arith, ge-leb (last r) (last s), value-last r valid, value-last s w)

  -- All outcomes of `check_access` on a valid bus: a length that does not fit the width, an access
  -- that is empty or runs over the end of the address space, an address without an entry, an
  -- access that runs over the end of the entry's range, and an access that the entry grants.
  pub check_access_lem : check_access b addr len ≡ (
      if leb (2 ^ bits) len
      then err (invalid_access_length len)
      else if len == 0 || ltb (2 ^ bits) (value addr + len)
      then err invalid_range
      else granted (view b (value addr)) (value addr + len))
  unfolding check_access
  check_access_lem = ground (
    arith,
    new_lem addr len,
    new-IsValid addr len,
    device-view b addr v,
    granted_by_last (view b (value addr)) {s = record { base = addr; size = len }} refl,
  )

  -- What a granted access tells.
  pub access_granted :
      (r : BusRange A) (d : D)
      → check_access b addr len ≡ ok (r, d)
      → (0 < len) × (view b (value addr) ≡ some (r, d)) × (value addr + len ≤ end r)
  access_granted r d e = elim (Option-cases (view b (value addr))) [
    | inl h ↦ absurd (ground (arith, check_access_lem))
    | inr (p, h) ↦ ground (arith, check_access_lem)
  ]

  -- On a valid bus, `check_access` grants an access exactly if it is not empty and each of its
  -- addresses lies in the returned entry.
  pub check_access-ok_iff :
      (r : BusRange A) (d : D)
      → (check_access b addr len ≡ ok (r, d))
        ↔ ((0 < len) × ((n : ℕ) → value addr ≤ n → n < value addr + len → view b n ≡ some (r, d)))
  unfolding view
  check_access-ok_iff r d = (
    λ e.
        let (some_byte, found, inside) = access_granted r d e in
        let (_, _, bounds) = find-bounds (value addr) 0 b.devices r d v.chain found in
        (
          some_byte,
          λ n low high. find_whole (value addr) n 0 b.devices r d v.chain found (omega arith),
        ),
    λ h.
        let found = h.1 (value addr) (omega arith) (omega arith) in
        let top = h.1 (value addr + len - 1) (omega arith) (omega arith) in
        let (_, valid, low) = find-bounds (value addr) 0 b.devices r d v.chain found in
        let (_, _, high) = find-bounds (value addr + len - 1) 0 b.devices r d v.chain top in
        ground (arith, check_access_lem, valid.bounded, valid.fits),
  )
