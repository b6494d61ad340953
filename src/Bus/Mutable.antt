-- ===== src/Bus/Mutable.antt =====
-- src/bus/mod.rs: `Bus::device_mut`, and a write through the reference that it returns.
use vm_device.Prelude.{ℕ, ◌≡◌, List, [], ◌∷◌, none, some, arith, if◌then◌else◌}
use vm_device.Address.{BusAddress}
use vm_device.Range.{BusRange, cmp, end}
use vm_device.BTreeMap.{insert}
use vm_device.Bus.{Bus, device, device_mut}
use vm_device.Bus.View.{find, find-bounds, contains, Chain, IsValid, view}
use vm_device.Bus.Lookup.{device-view}

module _ {A D : Type 0} ⦃o : BusAddress A⦄ where
  -- Inserting at a range that a search has found replaces the device there.
  insert_found :
      (n k low : ℕ) (m : List (BusRange A × D)) (r : BusRange A) (d f : D)
      → Chain low m
      → find n m ≡ some (r, d)
      → Chain low (insert cmp r f m)
        × (find k (insert cmp r f m) ≡ (if contains r k then some (r, f) else find k m))
  unfolding find insert cmp
  insert_found n k low [] r d f c e = cc
  insert_found n k low ((s, g) ∷ m) r d f c e = ground (
    arith,
    o.cmp_value r.base s.base,
    c.1.nonempty,
    find-bounds n (end s) m r d c.2,
    insert_found n k (end s) m r d f c.2,
  )

  module _ (b : Bus A D) (addr : A) (v : IsValid b) where
    open o use {value}

    -- Where no range contains the address, `device_mut` returns none.
    device_mut_absent : view b (value addr) ≡ none → device_mut b addr ≡ none
    unfolding device_mut device
    device_mut_absent e = ground (arith, device-view b addr v)

    -- Where a range of a valid bus contains the address, `device_mut` returns the range and its
    -- device, and a write through the reference replaces the device at exactly the addresses of the
    -- range and keeps the bus valid.
    pub device_mut_present :
        (r : BusRange A) (d : D)
        → view b (value addr) ≡ some (r, d)
        → (write : D → Bus A D) × (device_mut b addr ≡ some (r, d, write))
          × ((f : D)
              → IsValid (write f)
                × ((n : ℕ) → view (write f) n ≡ (if contains r n then some (r, f) else view b n)))
    unfolding device_mut device view
    device_mut_present r d e = (
      λ f. record { devices = insert cmp r f b.devices },
      ground (arith, device-view b addr v),
      λ f. (
        record { chain = (insert_found (value addr) 0 0 b.devices r d f v.chain e).0 },
        λ n. (insert_found (value addr) n 0 b.devices r d f v.chain e).1,
      ),
    )
