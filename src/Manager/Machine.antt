-- ===== src/Manager/Machine.antt =====
-- src/device_manager.rs: the methods of `IoManager`, called in any order, with the world of the
-- devices that the accesses reach. A call that panics ends its caller, and later calls go on.
pub mod Spec
pub mod Calls
pub mod Refines
use vm_device.Prelude.{ℕ, List, [], ◌∷◌, Outcome, Result}
use vm_device.Address.Mmio.{MmioAddress}
use vm_device.Address.Pio.{PioAddress}
use vm_device.Bus.Errors
use vm_device.Device.{DevicePio, DeviceMmio}
use vm_device.Resources.{Resource}
use vm_device.Manager.{
  Error, IoManager, pio_manager, mmio_manager, pio_read, pio_write, mmio_read, mmio_write,
}
use vm_device.Manager.Resourceful.{
  register_pio_resources, register_mmio_resources, register_resources, deregister_resources,
}
use vm_device.Manager.History.{IoCall, IoReply, io_step}

-- `S` is a device that implements both traits.
pub data MachineCall (P M S : Type 0) : Type 0 where
  on_buses : IoCall P M → MachineCall P M S
  reads_pio : PioAddress → List ℕ → MachineCall P M S
  writes_pio : PioAddress → List ℕ → MachineCall P M S
  reads_mmio : MmioAddress → List ℕ → MachineCall P M S
  writes_mmio : MmioAddress → List ℕ → MachineCall P M S
  registers_pio_resources : P → List Resource → MachineCall P M S
  registers_mmio_resources : M → List Resource → MachineCall P M S
  registers_resources : S → List Resource → MachineCall P M S
  deregisters_resources : List Resource → MachineCall P M S

pub data MachineReply (P M : Type 0) : Type 0 where
  by_bus : IoReply P M → MachineReply P M
  read : Outcome (Result (List ℕ) Errors.Error) → MachineReply P M
  written : Outcome (Result (Unit {0}) Errors.Error) → MachineReply P M
  entered : Outcome (Result (Unit {0}) Error) → MachineReply P M
  removed : ℕ → MachineReply P M

pub record Machine (P M W : Type 0) : Type 0 where
  pub manager : IoManager P M
  pub world : W

module _ {P M S W : Type 0} ⦃pio : DevicePio W P⦄ ⦃mmio : DeviceMmio W M⦄ (as_mmio : S → M)
    (as_pio : S → P) where
  unfoldable pub machine_step : Machine P M W → MachineCall P M S → Machine P M W × MachineReply P M
  machine_step m (on_buses c) =
      let (t, x) = io_step m.manager c in (record m { manager = t }, by_bus x)
  machine_step m (reads_pio addr buffer) =
      let (x, w) = pio_read pio_manager m.manager addr buffer m.world in
      (record m { world = w }, read x)
  machine_step m (writes_pio addr bytes) =
      let (x, w) = pio_write pio_manager m.manager addr bytes m.world in
      (record m { world = w }, written x)
  machine_step m (reads_mmio addr buffer) =
      let (x, w) = mmio_read mmio_manager m.manager addr buffer m.world in
      (record m { world = w }, read x)
  machine_step m (writes_mmio addr bytes) =
      let (x, w) = mmio_write mmio_manager m.manager addr bytes m.world in
      (record m { world = w }, written x)
  machine_step m (registers_pio_resources d rs) =
      let (t, x) = register_pio_resources m.manager d rs in (record m { manager = t }, entered x)
  machine_step m (registers_mmio_resources d rs) =
      let (t, x) = register_mmio_resources m.manager d rs in (record m { manager = t }, entered x)
  machine_step m (registers_resources d rs) =
      let (t, x) = register_resources as_mmio as_pio m.manager d rs in
      (record m { manager = t }, entered x)
  machine_step m (deregisters_resources rs) =
      let (t, n) = deregister_resources m.manager rs in (record m { manager = t }, removed n)

  unfoldable pub machine_run :
      Machine P M W → List (MachineCall P M S) → Machine P M W × List (MachineReply P M)
  machine_run m [] = (m, [])
  machine_run m (c ∷ cs) =
      let (m', x) = machine_step m c in let (m'', xs) = machine_run m' cs in (m'', x ∷ xs)
