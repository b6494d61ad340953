-- ===== src/Bus/Deregister.antt =====
-- src/bus/mod.rs: `Bus::deregister`.
use vm_device.Prelude.{ℕ, ◌≡◌, refl, List, [], ◌∷◌, none, some, arith, if◌then◌else◌}
use vm_device.Address.{BusAddress}
use vm_device.Range.{BusRange, cmp, end}
use vm_device.BTreeMap.{remove}
use vm_device.Bus.{Bus, deregister}
use vm_device.Bus.View.{find, find_below, find-bounds, contains, Chain, Chain-le, IsValid, view}
use vm_device.Bus.Lookup.{device-view}

module _ {A D : Type 0} ⦃o : BusAddress A⦄ where
  -- Removing a range that a search has found.
  remove_found :
      (n k low : ℕ) (m : List (BusRange A × D)) (r : BusRange A) (d : D)
      → Chain low m
      → find n m ≡ some (r, d)
      → ((remove cmp r m).0 ≡ some d)
        × Chain low (remove cmp r m).1
        × (find k (remove cmp r m).1 ≡ (if contains r k then none else find k m))
  unfolding find remove cmp
  remove_found n k low [] r d c e = cc
  remove_found n k low ((s, f) ∷ m) r d c e = ground (
    arith,
    o.cmp_value r.base s.base,
    c.1.nonempty,
    find-bounds n (end s) m r d c.2,
    find_below k (end s) m,
    Chain-le low (end s) m,
    remove_found n k (end s) m r d c.2,
  )

  module _ (b : Bus A D) (addr : A) (v : IsValid b) where
    open o use {value}

    -- Where no range of a valid bus contains the address, `deregister` returns none and leaves the
    -- bus as it was.
    pub deregister_absent : view b (value addr) ≡ none → deregister b addr ≡ (b, none)
    unfolding deregister
    deregister_absent e = ground (arith, device-view b addr v)

    module _ (r : BusRange A) (d : D) (e : view b (value addr) ≡ some (r, d)) where
      deregister-remove :
          deregister b addr ≡ (record { devices = (remove cmp r b.devices).1 }, some (r, d))
      unfolding deregister view
      deregister-remove =
          let found = remove_found (value addr) 0 0 b.devices r d v.chain e in
          ground (arith, device-view b addr v)

      -- Where a range of a valid bus contains the address, `deregister` returns it with its device,
      -- the bus stays valid, and the addresses of that range are free afterwards, while all others
      -- read as before.
      pub deregister_present :
          ((deregister b addr).1 ≡ some (r, d))
          × IsValid (deregister b addr).0
          × ((n : ℕ) → view (deregister b addr).0 n ≡ (if contains r n then none else view b n))
      unfolding view
      deregister_present = rw deregister-remove (
        refl,
        record { chain = (remove_found (value addr) 0 0 b.devices r d v.chain e).1 },
        λ n. (remove_found (value addr) n 0 b.devices r d v.chain e).2,
      )
