-- ===== src/Bus/Lookup.antt =====
-- src/bus/mod.rs: `Bus::device`, which takes the last range that begins at the address or before it.
use vm_device.Prelude.{ℕ, ◌<◌, ◌≡◌, refl, List, [], ◌∷◌, arith, filter_option}
use vm_device.Address.{BusAddress, ge}
use vm_device.Address.Laws.{ge-leb}
use vm_device.Range.{BusRange, unit, last, cmp, end}
use vm_device.Range.Laws.{value-last}
use vm_device.BTreeMap.{range_to_inclusive, nth_back}
use vm_device.BTreeMap.Laws.{nth_back-cons, nth_back-nil}
use vm_device.Bus.{Bus, device}
use vm_device.Bus.View.{find, find_below, Chain, IsValid, view}

module _ {A D : Type 0} ⦃o : BusAddress A⦄ where
  open o use {value}

  -- The entries that begin at the address or before.
  abbrev up_to : A → List (BusRange A × D) → List (BusRange A × D)
  up_to addr m = range_to_inclusive cmp (unit addr) m

  up_to_below :
      (addr : A) (low : ℕ) (m : List (BusRange A × D))
      → value addr < low
      → Chain low m
      → up_to addr m ≡ []
  unfolding range_to_inclusive cmp unit
  up_to_below addr low [] h c = refl
  up_to_below addr low ((r, d) ∷ m) h c = ground (arith, o.cmp_value r.base addr)

  last-up_to-find :
      (addr : A) (low : ℕ) (m : List (BusRange A × D))
      → Chain low m
      → filter_option (λ pair. ge (last pair.0) addr) (nth_back (up_to addr m) 0)
        ≡ find (value addr) m
  unfolding range_to_inclusive cmp unit find
  last-up_to-find addr low [] c = rw nth_back-nil
  last-up_to-find addr low ((r, d) ∷ m) c = ground (
    arith,
    o.cmp_value r.base addr,
    nth_back-nil {A = BusRange A × D},
    nth_back-cons (r, d) (up_to addr m),
    up_to_below addr (end r) m,
    last-up_to-find addr (end r) m,
    find_below (value addr) (end r) m,
    ge-leb (last r) addr,
    value-last r c.1,
  )

  -- On a valid bus, `device` returns the entry whose range contains the address, and none if no
  -- range contains it.
  pub device-view : (b : Bus A D) (addr : A) → IsValid b → device b addr ≡ view b (value addr)
  unfolding device view
  device-view b addr v = last-up_to-find addr 0 b.devices v.chain
