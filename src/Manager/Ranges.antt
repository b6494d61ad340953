-- ===== src/Manager/Ranges.antt =====
-- src/device_manager.rs: the loops over resources, one bus at a time. The loops of `IoManager` over
-- both kinds of address ranges are instances of two loops over a list of bases and sizes.
use mathlib.Core.List.{filter_map}
use vm_device.Prelude.{
  ℕ, ◌+◌, ◌≡◌, ◌∙◌, ap, refl, List, [], ◌∷◌, map, arith, Outcome, done, panic, Result, ok, err,
  Result-cases, inl, inr, if◌then◌else◌,
}
use vm_device.Address.{BusAddress}
use vm_device.Address.Mmio.{MmioAddress, mmio_address}
use vm_device.Address.Pio.{PioAddress, pio_address}
use vm_device.Range
use vm_device.Range.{BusRange}
use vm_device.Bus.{Bus, register, deregister}
use vm_device.Resources.{Resource, pio_address_range, mmio_address_range}
use vm_device.Resources.Laws.{pio_of, mmio_of}
use vm_device.Manager.{
  IoManager, Error, bus, pio_manager, mmio_manager, register_pio, register_mmio, deregister_pio,
  deregister_mmio,
}
use vm_device.Manager.Resourceful.{
  is_some, register_mmio_resources, register_pio_resources, deregister_loop,
}

module _ {A D : Type 0} ⦃o : BusAddress A⦄ where
  -- Registers a device at each range in turn, up to the first that is not valid or not free.
  unfoldable pub register_all :
      Bus A D → D → List (A × ℕ) → Bus A D × Outcome (Result (Unit {0}) Error)
  register_all b d [] = (b, done (ok tt))
  register_all b d ((base, size) ∷ rs) = elim (Range.new base size) [
    | err _ ↦ (b, panic)
    | ok range ↦
        let (b', x) = register b range d in
        elim x [ ok _ ↦ register_all b' d rs | err e ↦ (b', done (err (bus e))) ]
  ]

  -- Deregisters what is found at each base, and counts.
  unfoldable pub deregister_all : Bus A D → List (A × ℕ) → Bus A D × ℕ
  deregister_all b [] = (b, 0)
  deregister_all b ((base, _) ∷ rs) =
      let (b', removed) = deregister b base in
      let (b'', count) = deregister_all b' rs in (b'', if is_some removed then count + 1 else count)

-- The address ranges of each kind.
abbrev pub pio_ranges : List Resource → List (PioAddress × ℕ)
pio_ranges rs = map (λ p. (record { offset = p.0 }, p.1)) (filter_map pio_of rs)

abbrev pub mmio_ranges : List Resource → List (MmioAddress × ℕ)
mmio_ranges rs = map (λ p. (record { offset = p.0 }, p.1)) (filter_map mmio_of rs)

same_manager : {S : Type 0} {s : S} {n k : ℕ} → n ≡ k → ◌≡◌ {A = S × ℕ} (s, n) (s, k)
same_manager {s} e = ap (λ n. (s, n)) e

module _ {P M : Type 0} where
  pub register_mmio_resources-all :
      (t : IoManager P M) (d : M) (rs : List Resource)
      → register_mmio_resources t d rs ≡ (
          let (b, x) = register_all ⦃o = mmio_address⦄ t.mmio_bus d (mmio_ranges rs) in
          (record t { mmio_bus = b }, x))
  unfolding register_mmio_resources register_mmio mmio_manager register_all filter_map
  register_mmio_resources-all t d [] = refl
  register_mmio_resources-all t d (mmio_address_range base size ∷ rs) =
      elim (Result-cases (Range.new ⦃o = mmio_address⦄ (record { offset = base }) size)) [
        | inr (e, bad) ↦ rw (bad, register_mmio_resources, register_all)
        | inl (range, made) ↦
            rw (made, register_mmio_resources, register_all)
              (elim (Result-cases (register ⦃o = mmio_address⦄ t.mmio_bus range d).1) [
                | inr (e, taken) ↦ rw (taken, register_mmio)
                | inl (u, free) ↦
                    rw (free, register_mmio)
                      (register_mmio_resources-all (register_mmio mmio_manager t range d).0 d rs)
              ])
      ]
  register_mmio_resources-all t d (_ ∷ rs) = register_mmio_resources-all t d rs

  pub register_pio_resources-all :
      (t : IoManager P M) (d : P) (rs : List Resource)
      → register_pio_resources t d rs ≡ (
          let (b, x) = register_all ⦃o = pio_address⦄ t.pio_bus d (pio_ranges rs) in
          (record t { pio_bus = b }, x))
  unfolding register_pio_resources register_pio pio_manager register_all filter_map
  register_pio_resources-all t d [] = refl
  register_pio_resources-all t d (pio_address_range base size ∷ rs) =
      elim (Result-cases (Range.new ⦃o = pio_address⦄ (record { offset = base }) size)) [
        | inr (e, bad) ↦ rw (bad, register_pio_resources, register_all)
        | inl (range, made) ↦
            rw (made, register_pio_resources, register_all)
              (elim (Result-cases (register ⦃o = pio_address⦄ t.pio_bus range d).1) [
                | inr (e, taken) ↦ rw (taken, register_pio)
                | inl (u, free) ↦
                    rw (free, register_pio)
                      (register_pio_resources-all (register_pio pio_manager t range d).0 d rs)
              ])
      ]
  register_pio_resources-all t d (_ ∷ rs) = register_pio_resources-all t d rs

  -- The two buses are independent, and the counter is the sum of the counts.
  pub deregister_loop-all :
      (t : IoManager P M) (count : ℕ) (rs : List Resource)
      → deregister_loop t count rs ≡ (
          let (p, n) = deregister_all ⦃o = pio_address⦄ t.pio_bus (pio_ranges rs) in
          let (m, k) = deregister_all ⦃o = mmio_address⦄ t.mmio_bus (mmio_ranges rs) in
          (record { pio_bus = p; mmio_bus = m }, count + (n + k)))
  unfolding deregister_loop deregister_pio deregister_mmio pio_manager mmio_manager deregister_all
      filter_map
  deregister_loop-all t count [] = ap (λ n. (t, n)) (omega arith)
  deregister_loop-all t count (pio_address_range base size ∷ rs) =
      let (b, removed) = deregister ⦃o = pio_address⦄ t.pio_bus (record { offset = base }) in
      deregister_loop-all (record t { pio_bus = b }) (if is_some removed then count + 1 else count)
        rs
      ∙ same_manager (ground arith)
  deregister_loop-all t count (mmio_address_range base size ∷ rs) =
      let (b, removed) = deregister ⦃o = mmio_address⦄ t.mmio_bus (record { offset = base }) in
      deregister_loop-all (record t { mmio_bus = b }) (if is_some removed then count + 1 else count)
        rs
      ∙ same_manager (ground arith)
  deregister_loop-all t count (_ ∷ rs) = deregister_loop-all t count rs
