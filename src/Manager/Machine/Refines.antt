-- ===== src/Manager/Machine/Refines.antt =====
-- src/device_manager.rs: a manager and the world of its devices against their specification.
use vm_device.Prelude.{
  ◌≡◌, ap, refl, List, [], ◌∷◌, Outcome, done, panic, Result, ok, err, inl, inr, length, All, arith,
}
use vm_device.Address.Mmio.{mmio_address}
use vm_device.Address.Pio.{pio_address}
use vm_device.Bus.View.{view}
use vm_device.Device.{DevicePio, DeviceMmio}
use vm_device.Resources.{Resource}
use vm_device.Manager.Registration.{Ends}
use vm_device.Manager.{
  Error, IoManager, bus_read, bus_write, pio_read, pio_write, mmio_read, mmio_write, pio_manager,
  mmio_manager,
}
use vm_device.Manager.Resourceful.{register_pio_resources, register_resources, deregister_resources}
use vm_device.Manager.Ranges.{pio_ranges, mmio_ranges, deregister_loop-all}
use vm_device.Manager.Outcomes.{
  IsValidManager, IsSizedResources, register_mmio_resources-Ends, register_pio_resources-Ends,
}
use vm_device.Manager.Machine.{
  MachineCall, on_buses, reads_pio, writes_pio, reads_mmio, writes_mmio, registers_pio_resources,
  registers_mmio_resources, registers_resources, deregisters_resources, read, written, entered,
  removed, Machine, machine_step, machine_run,
}
use vm_device.Manager.Machine.Spec.{views, MachineSpec, MachineSpecRun, IsValidMachineCall}
use vm_device.Manager.Machine.Calls.{
  access_lem, deregister_all-Removes, io_step-OnBuses, same_views,
}

module _ {P M S W : Type 0} ⦃pio : DevicePio W P⦄ ⦃mmio : DeviceMmio W M⦄ (as_mmio : S → M)
    (as_pio : S → P) where
  -- What `register_resources` does after the MMIO ranges have ended with the outcome `x`.
  register_pio-Spec :
      (m : Machine P M W) (d : S) (rs : List Resource) (t : IoManager P M)
      (x : Outcome (Result (Unit {0}) Error))
      → IsSizedResources rs
      → IsValidManager t
      → t.pio_bus ≡ m.manager.pio_bus
      → Ends ⦃o = mmio_address⦄
          (views m).mmio
          (as_mmio d)
          (mmio_ranges rs)
          (view ⦃o = mmio_address⦄ t.mmio_bus)
          x
      → let r : IoManager P M × Outcome (Result (Unit {0}) Error) = elim x [
        | done (ok _) ↦ register_pio_resources t (as_pio d) rs
        | done (err e) ↦ (t, done (err e))
        | panic ↦ (t, panic)
      ] in
        IsValidManager r.0
        × MachineSpec as_mmio as_pio
            (views m)
            (registers_resources d rs)
            (views (record m { manager = r.0 }))
            (entered r.1)
  register_pio-Spec m d rs t (done (ok tt)) h v same ends =
      let (valid, kept, ends') = register_pio_resources-Ends t rs v h (as_pio d) in
      (valid, (done (ok tt), rw kept ends, refl, inl (refl, _, rw (← same) ends', refl)))
  register_pio-Spec m d rs t (done (err e)) h v same ends =
      (v, (done (err e), ends, refl, inr (λ q. cc, ap (view ⦃o = pio_address⦄) same, refl)))
  register_pio-Spec m d rs t panic h v same ends =
      (v, (panic, ends, refl, inr (λ q. cc, ap (view ⦃o = pio_address⦄) same, refl)))

  machine_step-Spec :
      (m : Machine P M W) (c : MachineCall P M S)
      → IsValidManager m.manager
      → IsValidMachineCall c
      → let (m', y) = machine_step as_mmio as_pio m c in
        IsValidManager m'.manager × MachineSpec as_mmio as_pio (views m) c (views m') y
  unfolding machine_step pio_read pio_write mmio_read mmio_write bus_read bus_write pio_manager
      mmio_manager pio_address mmio_address deregister_resources register_resources
  machine_step-Spec m (on_buses c) v h = io_step-OnBuses S m c v h
  machine_step-Spec m (reads_pio addr buffer) v h = (
    v,
    same_views m read (
        access_lem ⦃o = pio_address⦄ m.manager.pio_bus addr (length buffer)
          (λ r d offset. pio.read d r.base offset buffer) m.world v.pio),
  )
  machine_step-Spec m (writes_pio addr bytes) v h = (
    v,
    same_views m written (
        access_lem ⦃o = pio_address⦄ m.manager.pio_bus addr (length bytes)
          (λ r d offset. pio.write d r.base offset bytes) m.world v.pio),
  )
  machine_step-Spec m (reads_mmio addr buffer) v h = (
    v,
    same_views m read (
        access_lem ⦃o = mmio_address⦄ m.manager.mmio_bus addr (length buffer)
          (λ r d offset. mmio.read d r.base offset buffer) m.world v.mmio),
  )
  machine_step-Spec m (writes_mmio addr bytes) v h = (
    v,
    same_views m written (
        access_lem ⦃o = mmio_address⦄ m.manager.mmio_bus addr (length bytes)
          (λ r d offset. mmio.write d r.base offset bytes) m.world v.mmio),
  )
  machine_step-Spec m (registers_pio_resources d rs) v h =
      let (valid, same, ends) = register_pio_resources-Ends m.manager rs v h d in
      (valid, (_, ends, ap (view ⦃o = mmio_address⦄) same, refl, refl))
  machine_step-Spec m (registers_mmio_resources d rs) v h =
      let (valid, same, ends) = register_mmio_resources-Ends m.manager rs v h d in
      (valid, (_, ends, ap (view ⦃o = pio_address⦄) same, refl, refl))
  machine_step-Spec m (registers_resources d rs) v h =
      let (valid, same, ends) = register_mmio_resources-Ends m.manager rs v h (as_mmio d) in
      register_pio-Spec m d rs _ _ h valid same ends
  machine_step-Spec m (deregisters_resources rs) v h =
      let (p, removes) =
        deregister_all-Removes ⦃o = pio_address⦄ m.manager.pio_bus (pio_ranges rs) v.pio in
      let (q, removes') =
        deregister_all-Removes ⦃o = mmio_address⦄ m.manager.mmio_bus (mmio_ranges rs) v.mmio in
      rw (deregister_loop-all m.manager 0 rs)
        (record { pio = p; mmio = q }, (_, _, removes, removes', refl, ap removed (omega arith)))

  -- A manager with its devices refines its specification: from a valid manager, any sequence of
  -- calls, where ranges that are registered are valid and sizes in resources fit their types,
  -- leaves a valid manager, and each call changes the functions from addresses to entries and the
  -- world, and replies, as the specification allows.
  pub machine_run-Spec :
      (m : Machine P M W) (cs : List (MachineCall P M S))
      → IsValidManager m.manager
      → All IsValidMachineCall cs
      → let (m', ys) = machine_run as_mmio as_pio m cs in
        IsValidManager m'.manager × MachineSpecRun as_mmio as_pio (views m) cs (views m') ys
  unfolding machine_run
  machine_run-Spec m [] v h = (v, refl)
  machine_run-Spec m (c ∷ cs) v (h, hs) =
      let (valid, one) = machine_step-Spec m c v h in
      let (valid', more) = machine_run-Spec (machine_step as_mmio as_pio m c).0 cs valid hs in
      (valid', (views (machine_step as_mmio as_pio m c).0, one, more))
