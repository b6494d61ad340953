-- ===== src/Manager/Machine/Calls.antt =====
-- src/device_manager.rs: accesses, deregistrations and calls on one bus, against the specification
-- of a manager.
use vm_device.Prelude.{ℕ, ◌-◌, ◌≡◌, ap, refl, List, [], ◌∷◌, Outcome, inl, inr, arith, Result-cases}
use vm_device.Address.{BusAddress}
use vm_device.Address.Laws.{sub-eq}
use vm_device.Address.Mmio.{mmio_address}
use vm_device.Address.Pio.{pio_address}
use vm_device.Range.{BusRange}
use vm_device.Bus.{Bus, check_access, deregister}
use vm_device.Bus.View.{IsValid, view, find-bounds}
use vm_device.Bus.Access.{check_access_lem, access_granted}
use vm_device.Bus.History.{step, step-Spec, registers, deregisters, looks_up, access_reply}
use vm_device.Manager.{
  and_then_call, pio_manager, mmio_manager, register_pio, register_mmio, deregister_pio,
  deregister_mmio, pio_device, mmio_device,
}
use vm_device.Manager.Ranges.{deregister_all}
use vm_device.Manager.Outcomes.{IsValidManager}
use vm_device.Manager.History.{
  IoCall, io_step, registers_pio, deregisters_pio, looks_up_pio, registers_mmio, deregisters_mmio,
  looks_up_mmio,
}
use vm_device.Manager.Machine.{on_buses, MachineReply, by_bus, Machine}
use vm_device.Manager.Machine.Spec.{views, OnBuses, access, Removes, IsValidMachineCall}

module _ {A D : Type 0} ⦃o : BusAddress A⦄ where
  open o use {value}

  -- The difference of addresses that an access passes on does not wrap around.
  pub access_lem {ℓ} :
      {W : Type 0} {X : Type ℓ} (b : Bus A D) (addr : A) (len : ℕ)
      (call : BusRange A → D → ℕ → W → Outcome X × W) (w : W)
      → IsValid b
      → and_then_call (check_access b addr len) (λ r d. call r d (o.sub addr r.base)) w
        ≡ access (view b) addr len call w
  unfolding view
  access_lem b addr len call w v =
      let same : check_access b addr len ≡ access_reply (view b) addr len =
        check_access_lem b addr len v in
      elim (Result-cases (check_access b addr len)) [
        | inr (x, e) ↦ rw (← same, e) refl
        | inl ((r, d), e) ↦
            let (_, found, inside) = access_granted b addr len v r d e in
            let (_, valid, bounds) = find-bounds (value addr) 0 b.devices r d v.chain found in
            let offset : o.sub addr r.base ≡ value addr - value r.base =
              omega (arith, sub-eq addr r.base, valid.fits) in
            rw (← same, e, offset) refl
      ]

  pub deregister_all-Removes :
      (b : Bus A D) (rs : List (A × ℕ))
      → IsValid b
      → let (b', n) = deregister_all b rs in IsValid b' × Removes (view b) rs (view b') n
  unfolding deregister_all step
  deregister_all-Removes b [] v = (v, (refl, refl))
  deregister_all-Removes b ((base, _) ∷ rs) v =
      let (valid, spec) = step-Spec b (deregisters base) v tt in
      let (valid', rest) = deregister_all-Removes (deregister b base).0 rs valid in
      (valid', (view (deregister b base).0, (deregister b base).1, _, spec, rest, refl))

module _ {P M W : Type 0} where
  pub io_step-OnBuses :
      (S : Type 0) (m : Machine P M W) (c : IoCall P M)
      → IsValidManager m.manager
      → IsValidMachineCall {S = S} (on_buses c)
      → let (t, x) = io_step m.manager c in
        IsValidManager t × OnBuses (views m) c (views (record m { manager = t })) (by_bus x)
  unfolding io_step step register_pio register_mmio deregister_pio deregister_mmio pio_device
      mmio_device pio_manager mmio_manager
  io_step-OnBuses S m (registers_pio r d) v h =
      let (valid, spec) = step-Spec ⦃o = pio_address⦄ m.manager.pio_bus (registers r d) v.pio h in
      (record { pio = valid; mmio = v.mmio }, (_, spec, refl, refl, refl))
  io_step-OnBuses S m (deregisters_pio addr) v h =
      let (valid, spec) =
        step-Spec ⦃o = pio_address⦄ m.manager.pio_bus (deregisters addr) v.pio tt in
      (record { pio = valid; mmio = v.mmio }, (_, spec, refl, refl, refl))
  io_step-OnBuses S m (looks_up_pio addr) v h =
      let (_, spec) = step-Spec ⦃o = pio_address⦄ m.manager.pio_bus (looks_up addr) v.pio tt in
      (v, (_, spec, refl, refl, refl))
  io_step-OnBuses S m (registers_mmio r d) v h =
      let (valid, spec) =
        step-Spec ⦃o = mmio_address⦄ m.manager.mmio_bus (registers r d) v.mmio h in
      (record { pio = v.pio; mmio = valid }, (_, spec, refl, refl, refl))
  io_step-OnBuses S m (deregisters_mmio addr) v h =
      let (valid, spec) =
        step-Spec ⦃o = mmio_address⦄ m.manager.mmio_bus (deregisters addr) v.mmio tt in
      (record { pio = v.pio; mmio = valid }, (_, spec, refl, refl, refl))
  io_step-OnBuses S m (looks_up_mmio addr) v h =
      let (_, spec) = step-Spec ⦃o = mmio_address⦄ m.manager.mmio_bus (looks_up addr) v.mmio tt in
      (v, (_, spec, refl, refl, refl))

  pub same_views :
      {X : Type 0} (m : Machine P M W) (f : X → MachineReply P M) {p q : X × W}
      → p ≡ q
      → (views (record m { world = p.1 }) ≡ record (views m) { world = q.1 }) × (f p.0 ≡ f q.0)
  same_views m f e = (ap (λ p. record (views m) { world = p.1 }) e, ap (λ p. f p.0) e)
