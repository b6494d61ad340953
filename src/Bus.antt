-- ===== src/Bus.antt =====
-- src/bus/mod.rs: `Bus`, a map from disjoint ranges of addresses to devices.
-- A method returns the bus after the call beside its result.
pub mod Errors
pub mod View
pub mod Lookup
pub mod Register
pub mod Deregister
pub mod Access
pub mod Extensional
pub mod Mutable
pub mod History
pub mod Overflow
pub mod Display
pub mod UnitTests
mod Tests
use mathlib.Core.Option
use vm_device.Prelude.{
  ℕ, Ordering, Bool, true, false, Option, none, some, List, [], ◌∷◌, Result, ok, err, ◌>>=◌,
  map_err, ok_or, filter_option, if◌then◌else◌,
}
use vm_device.Prelude.Word.{try_from}
use vm_device.Address.{BusAddress, ge}
use vm_device.Range.{BusRange, unit, last, overlaps, cmp}
use vm_device.Range
use vm_device.BTreeMap.{insert, remove, range_to_inclusive, keys, nth_back}
use vm_device.Bus.Errors.{
  Error, device_not_found, device_overlap, invalid_access_length, invalid_range,
}

pub record Bus {ℓ} (A : Type 0) (D : Type ℓ) : Type ℓ where
  pub devices : List (BusRange A × D)

unfoldable pub new {ℓ} : {A : Type 0} {D : Type ℓ} → Bus A D
new = record { devices = [] }

-- The loop of `register`: some key overlaps the range.
unfoldable pub overlaps_any :
    {A : Type 0} ⦃o : BusAddress A⦄ → BusRange A → List (BusRange A) → Bool
overlaps_any range [] = false
overlaps_any range (r ∷ rs) = if overlaps range r then true else overlaps_any range rs

module _ {ℓ} {A : Type 0} {D : Type ℓ} ⦃o : BusAddress A⦄ where
  unfoldable pub device : Bus A D → A → Option (BusRange A × D)
  device b addr =
      filter_option (λ pair. ge (last pair.0) addr)
        (nth_back (range_to_inclusive cmp (unit addr) b.devices) 0)

  -- The mutable reference is the device with a function that writes another in its place.
  unfoldable pub device_mut : Bus A D → A → Option (BusRange A × D × (D → Bus A D))
  device_mut b addr =
      Option.map (λ pair. (pair.0, pair.1, λ d. record { devices = insert cmp pair.0 d b.devices }))
        (filter_option (λ pair. ge (last pair.0) addr)
          (nth_back (range_to_inclusive cmp (unit addr) b.devices) 0))

  unfoldable pub register : Bus A D → BusRange A → D → Bus A D × Result (Unit {0}) Error
  register b range device =
      if overlaps_any range (keys b.devices)
      then (b, err device_overlap)
      else (record { devices = insert cmp range device b.devices }, ok tt)

  unfoldable pub deregister : Bus A D → A → Bus A D × Option (BusRange A × D)
  deregister b addr = elim (Option.map (λ pair. pair.0) (device b addr)) [
    | none ↦ (b, none)
    | some range ↦
        let (removed, rest) = remove cmp range b.devices in
        (record { devices = rest }, Option.map (λ d. (range, d)) removed)
  ]

  unfoldable pub check_access : Bus A D → A → ℕ → Result (BusRange A × D) Error
  check_access b addr len = do
    size ← ok_or (try_from o.bits len) (invalid_access_length len)
    access_range ← map_err (λ _. invalid_range) (Range.new addr size)
    ok_or (filter_option (λ pair. ge (last pair.0) (last access_range)) (device b addr))
        device_not_found
