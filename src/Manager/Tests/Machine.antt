-- ===== src/Manager/Tests/Machine.antt =====
-- A device on both buses of a manager: it is registered, written to at a port, read from in memory,
-- deregistered, and looked for in vain.
use vm_device.Prelude.{arith, ◌≡◌, refl, List, [], ◌∷◌, done, ok, err}
use vm_device.Address.Mmio.{mmio_address}
use vm_device.Address.Pio.{PioAddress, pio_address}
use vm_device.Range
use vm_device.BTreeMap.{insert, remove, range_to_inclusive, nth_back}
use vm_device.Bus
use vm_device.Bus.Errors
use vm_device.Device.Arc.{arc_device}
use vm_device.Device.Mutex.{World, mutex_device, with_lock}
use vm_device.Device.Dummy
use vm_device.Device.Dummy.{DummyDevice, dummy_device}
use vm_device.Manager.{
  pio_manager, mmio_manager, register_mmio, register_pio, deregister_mmio, deregister_pio,
  mmio_read, pio_read, pio_write,
}
use vm_device.Manager.Resourceful.{
  register_mmio_resources, register_pio_resources, register_resources, deregister_loop,
  deregister_resources,
}
use vm_device.Manager.Machine.{
  MachineCall, reads_pio, writes_pio, reads_mmio, registers_resources, deregisters_resources,
  MachineReply, read, written, entered, removed, Machine, machine_step, machine_run,
}
use vm_device.Manager.Machine.Spec.{views, MachineSpecRun}
use vm_device.Manager.Machine.Refines.{machine_run-Spec}
use vm_device.Manager.Overflow.Machine
use vm_device.Manager.Overflow.Machine.{machine_run-done}
use vm_device.Manager.Outcomes.{IsValidManager}
use vm_device.Manager.Tests.{Shared, dummy, at, world}
use vm_device.Manager.Tests.Registration.{
  no_devices, no_devices-IsValid, resources, resources-IsSized,
}

abbrev port : PioAddress
port = record { offset = 0x61 }

abbrev machine : Machine Shared Shared (World DummyDevice)
machine = record { manager = no_devices; world = world }

abbrev calls : List (MachineCall Shared Shared Shared)
calls =
    registers_resources dummy resources
    ∷ writes_pio port (7 ∷ [])
    ∷ reads_mmio (at 0x1010) (0 ∷ 0 ∷ [])
    ∷ deregisters_resources resources
    ∷ reads_pio port (0 ∷ [])
    ∷ []

abbrev replies : List (MachineReply Shared Shared)
replies =
    entered (done (ok tt))
    ∷ written (done (ok tt))
    ∷ read (done (ok (7 ∷ 0 ∷ [])))
    ∷ removed 3
    ∷ read (done (err Errors.device_not_found))
    ∷ []

-- A build with overflow checks gives the same replies.
machine_run-done_example :
    Machine.machine_run (λ d. d) (λ d. d) machine calls
    ≡ done (machine_run (λ d. d) (λ d. d) machine calls)
machine_run-done_example =
    machine_run-done (λ d. d) (λ d. d) machine calls no_devices-IsValid
      (resources-IsSized, (tt, (tt, (tt, (tt, tt))))) (tt, (tt, (tt, (omega arith, (tt, tt)))))

replies_lem : (machine_run (λ d. d) (λ d. d) machine calls).1 ≡ replies
unfolding machine_run machine_step pio_manager mmio_manager register_mmio register_pio
    deregister_mmio deregister_pio mmio_read pio_read pio_write register_mmio_resources
    register_pio_resources register_resources deregister_loop deregister_resources insert remove
    range_to_inclusive nth_back Bus.device Bus.register Bus.deregister Bus.check_access
    Bus.overlaps_any Range.new Range.last Range.unit Range.overlaps Range.cmp mmio_address
    pio_address arc_device mutex_device dummy_device with_lock Dummy.read Dummy.write
replies_lem = refl

machine_run-Spec_example :
    let (m, ys) = machine_run (λ d. d) (λ d. d) machine calls in
    IsValidManager m.manager × MachineSpecRun (λ d. d) (λ d. d) (views machine) calls (views m) ys
machine_run-Spec_example =
    machine_run-Spec (λ d. d) (λ d. d) machine calls no_devices-IsValid
      (resources-IsSized, (tt, (tt, (tt, (tt, tt)))))
