-- ===== src/Manager/Overflow/Machine.antt =====
-- src/device_manager.rs: the calls on a manager, in any order, in a build with overflow checks.
use vm_device.Prelude.{
  ◌<◌, ◌^◌, ◌≡◌, refl, List, [], ◌∷◌, arith, Outcome, done, length, All, inl, inr,
}
use vm_device.Prelude.Panic.{◌>>=◌}
use vm_device.Address.Mmio.{mmio_address}
use vm_device.Address.Pio.{pio_address}
use vm_device.Bus.History.{registered, deregistered, looked_up}
use vm_device.Bus.Overflow.{
  register, deregister, device, register-done, deregister-done, device-done,
}
use vm_device.Device.{DevicePio, DeviceMmio}
use vm_device.Manager
use vm_device.Manager.Resourceful
use vm_device.Manager.Outcomes.{IsValidManager}
use vm_device.Manager.History
use vm_device.Manager.History.{
  IoCall, IoReply, registers_pio, deregisters_pio, looks_up_pio, registers_mmio, deregisters_mmio,
  looks_up_mmio,
}
use vm_device.Manager.Machine
use vm_device.Manager.Machine.{
  MachineCall, on_buses, reads_pio, writes_pio, reads_mmio, writes_mmio, registers_pio_resources,
  registers_mmio_resources, registers_resources, deregisters_resources, MachineReply, by_bus, read,
  written, entered, removed, Machine,
}
use vm_device.Manager.Machine.Spec.{IsValidMachineCall}
use vm_device.Manager.Machine.Refines.{machine_run-Spec}
use vm_device.Manager.Overflow.{bus_read, bus_write, accesses-same}
use vm_device.Manager.Overflow.Resources.{
  register_pio_resources, register_mmio_resources, register_resources, deregister_loop,
  register_pio_same, register_mmio_same, register_resources_same, deregister_loop-done,
}
use vm_device.Manager.{IoManager}

module _ {P M : Type 0} where
  unfoldable pub io_step : IoManager P M → IoCall P M → Outcome (IoManager P M × IoReply P M)
  io_step t (registers_pio r d) = do
    (b, x) ← register ⦃o = pio_address⦄ t.pio_bus r d
    done (record t { pio_bus = b }, inl (registered x))
  io_step t (deregisters_pio addr) = do
    (b, x) ← deregister ⦃o = pio_address⦄ t.pio_bus addr
    done (record t { pio_bus = b }, inl (deregistered x))
  io_step t (looks_up_pio addr) = do
    x ← device ⦃o = pio_address⦄ t.pio_bus addr
    done (t, inl (looked_up x))
  io_step t (registers_mmio r d) = do
    (b, x) ← register ⦃o = mmio_address⦄ t.mmio_bus r d
    done (record t { mmio_bus = b }, inr (registered x))
  io_step t (deregisters_mmio addr) = do
    (b, x) ← deregister ⦃o = mmio_address⦄ t.mmio_bus addr
    done (record t { mmio_bus = b }, inr (deregistered x))
  io_step t (looks_up_mmio addr) = do
    x ← device ⦃o = mmio_address⦄ t.mmio_bus addr
    done (t, inr (looked_up x))

  io_step-done :
      (S : Type 0) (t : IoManager P M) (c : IoCall P M)
      → IsValidManager t
      → IsValidMachineCall {S = S} (on_buses c)
      → io_step t c ≡ done (History.io_step t c)
  unfolding io_step History.io_step Manager.register_pio Manager.register_mmio
      Manager.deregister_pio Manager.deregister_mmio Manager.pio_device Manager.mmio_device
      Manager.pio_manager Manager.mmio_manager
  io_step-done S t (registers_pio r d) v h =
      rw (register-done ⦃o = pio_address⦄ t.pio_bus r d v.pio h)
  io_step-done S t (deregisters_pio addr) v h =
      rw (deregister-done ⦃o = pio_address⦄ t.pio_bus addr v.pio)
  io_step-done S t (looks_up_pio addr) v h = rw (device-done ⦃o = pio_address⦄ t.pio_bus addr v.pio)
  io_step-done S t (registers_mmio r d) v h =
      rw (register-done ⦃o = mmio_address⦄ t.mmio_bus r d v.mmio h)
  io_step-done S t (deregisters_mmio addr) v h =
      rw (deregister-done ⦃o = mmio_address⦄ t.mmio_bus addr v.mmio)
  io_step-done S t (looks_up_mmio addr) v h =
      rw (device-done ⦃o = mmio_address⦄ t.mmio_bus addr v.mmio)

-- A slice has fewer than 2^64 elements.
abbrev pub IsSlice : {P M S : Type 0} → MachineCall P M S → Type 0
IsSlice (deregisters_resources rs) = length rs < 2 ^ 64
IsSlice _ = Unit

module _ {P M S W : Type 0} ⦃pio : DevicePio W P⦄ ⦃mmio : DeviceMmio W M⦄ (as_mmio : S → M)
    (as_pio : S → P) where
  -- In an access and in a registration by resources an overflow is a panic of the call, as any other.
  unfoldable pub machine_step :
      Machine P M W → MachineCall P M S → Outcome (Machine P M W × MachineReply P M)
  unfolding io_step
  machine_step m (on_buses c) = do
    (t, x) ← io_step m.manager c
    done (record m { manager = t }, by_bus x)
  machine_step m (reads_pio addr buffer) =
      let (x, w) = bus_read ⦃o = pio_address⦄ m.manager.pio_bus addr buffer m.world in
      done (record m { world = w }, read x)
  machine_step m (writes_pio addr bytes) =
      let (x, w) = bus_write ⦃o = pio_address⦄ m.manager.pio_bus addr bytes m.world in
      done (record m { world = w }, written x)
  machine_step m (reads_mmio addr buffer) =
      let (x, w) = bus_read ⦃o = mmio_address⦄ m.manager.mmio_bus addr buffer m.world in
      done (record m { world = w }, read x)
  machine_step m (writes_mmio addr bytes) =
      let (x, w) = bus_write ⦃o = mmio_address⦄ m.manager.mmio_bus addr bytes m.world in
      done (record m { world = w }, written x)
  machine_step m (registers_pio_resources d rs) =
      let (t, x) = register_pio_resources m.manager d rs in
      done (record m { manager = t }, entered x)
  machine_step m (registers_mmio_resources d rs) =
      let (t, x) = register_mmio_resources m.manager d rs in
      done (record m { manager = t }, entered x)
  machine_step m (registers_resources d rs) =
      let (t, x) = register_resources as_mmio as_pio m.manager d rs in
      done (record m { manager = t }, entered x)
  machine_step m (deregisters_resources rs) = do
    (t, n) ← deregister_loop m.manager 0 rs
    done (record m { manager = t }, removed n)

  unfoldable pub machine_run :
      Machine P M W → List (MachineCall P M S) → Outcome (Machine P M W × List (MachineReply P M))
  machine_run m [] = done (m, [])
  machine_run m (c ∷ cs) = do
    (m', x) ← machine_step m c
    (m'', xs) ← machine_run m' cs
    done (m'', x ∷ xs)

  machine_step-done :
      (m : Machine P M W) (c : MachineCall P M S)
      → IsValidManager m.manager
      → IsValidMachineCall c
      → IsSlice c
      → machine_step m c ≡ done (Machine.machine_step as_mmio as_pio m c)
  unfolding machine_step Machine.machine_step Manager.pio_read Manager.pio_write Manager.mmio_read
      Manager.mmio_write Manager.pio_manager Manager.mmio_manager Resourceful.deregister_resources
  machine_step-done m (on_buses c) v h k = rw (io_step-done S m.manager c v h)
  machine_step-done m (reads_pio addr buffer) v h k =
      rw (accesses-same ⦃o = pio_address⦄ m.manager.pio_bus addr buffer m.world v.pio).0
  machine_step-done m (writes_pio addr bytes) v h k =
      rw (accesses-same ⦃o = pio_address⦄ m.manager.pio_bus addr bytes m.world v.pio).1
  machine_step-done m (reads_mmio addr buffer) v h k =
      rw (accesses-same ⦃o = mmio_address⦄ m.manager.mmio_bus addr buffer m.world v.mmio).0
  machine_step-done m (writes_mmio addr bytes) v h k =
      rw (accesses-same ⦃o = mmio_address⦄ m.manager.mmio_bus addr bytes m.world v.mmio).1
  machine_step-done m (registers_pio_resources d rs) v h k =
      rw (register_pio_same m.manager d rs v h.pio)
  machine_step-done m (registers_mmio_resources d rs) v h k =
      rw (register_mmio_same m.manager d rs v h.mmio)
  machine_step-done m (registers_resources d rs) v h k =
      rw (register_resources_same as_mmio as_pio m.manager d rs v h)
  machine_step-done m (deregisters_resources rs) v h k =
      rw (deregister_loop-done m.manager 0 rs v (omega arith))

  -- Nothing in a manager overflows: from a valid manager, any sequence of calls of every kind, where
  -- ranges that are registered are valid, sizes in resources fit their types and slices have fewer
  -- than 2^64 elements, ends in a build that panics on overflow as it does in a build in which
  -- arithmetic wraps around, with the same replies, and no call panics for an overflow.
  pub machine_run-done :
      (m : Machine P M W) (cs : List (MachineCall P M S))
      → IsValidManager m.manager
      → All IsValidMachineCall cs
      → All IsSlice cs
      → machine_run m cs ≡ done (Machine.machine_run as_mmio as_pio m cs)
  unfolding machine_run Machine.machine_run
  machine_run-done m [] v h k = refl
  machine_run-done m (c ∷ cs) v (h, hs) (k, ks) =
      let valid = (machine_run-Spec as_mmio as_pio m (c ∷ []) v (h, tt)).0 in
      rw (
        machine_step-done m c v h k,
        machine_run-done (Machine.machine_step as_mmio as_pio m c).0 cs valid hs ks,
      )
