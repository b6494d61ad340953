-- ===== src/Manager/Tests/Traits.antt =====
-- The methods of the traits at a manager without devices: a device is registered, looked up and
-- deregistered on each bus.
use vm_device.Prelude.{List, [], ◌∷◌, arith}
use vm_device.Address.Mmio.{MmioAddress, mmio_address}
use vm_device.Address.Pio.{PioAddress, pio_address}
use vm_device.Device.Arc.{arc_device}
use vm_device.Device.Mutex.{World, mutex_device}
use vm_device.Device.Dummy.{DummyDevice, dummy_device}
use vm_device.Manager.{pio_manager, mmio_manager}
use vm_device.Manager.Traits.{implement_pio, implement_mmio}
use vm_device.Manager.Traits.Laws.{
  TraitCall, registers, deregisters, looks_up, run_by, pio_call, mmio_call, Serves,
  traits_run-Serves,
}
use vm_device.Manager.Tests.{Shared, dummy, at, range, ports}
use vm_device.Manager.Tests.Registration.{no_devices, no_devices-IsValid}

abbrev pio_calls : List (TraitCall PioAddress Shared)
pio_calls =
    registers ports dummy
    ∷ registers ports dummy
    ∷ looks_up ports.base
    ∷ deregisters ports.base
    ∷ looks_up ports.base
    ∷ []

abbrev mmio_calls : List (TraitCall MmioAddress Shared)
mmio_calls = registers range dummy ∷ deregisters (at 0x1010) ∷ deregisters (at 0x1010) ∷ []

traits_run-Serves_example :
    Serves ⦃o = pio_address⦄ pio_manager no_devices pio_calls (
      run_by
        (pio_call (implement_pio {W = World DummyDevice} ⦃m = pio_manager⦄))
        no_devices
        pio_calls)
    × Serves ⦃o = mmio_address⦄ mmio_manager no_devices mmio_calls (
        run_by
          (mmio_call (implement_mmio {W = World DummyDevice} ⦃m = mmio_manager⦄))
          no_devices
          mmio_calls)
unfolding pio_manager mmio_manager pio_address mmio_address
traits_run-Serves_example =
    traits_run-Serves (World DummyDevice) pio_manager mmio_manager no_devices no_devices pio_calls
      mmio_calls no_devices-IsValid.pio no_devices-IsValid.mmio
      (omega arith, (omega arith, (tt, (tt, (tt, tt))))) (omega arith, (tt, (tt, tt)))
