-- ===== src/Manager/Tests.antt =====
-- The theorems of src/device_manager.rs on accesses, at a bus and at a manager with one device.
mod Registration
mod Concurrent
mod Machine
mod Traits
use vm_device.Prelude.{ℕ, ◌≡◌, ◌↔◌, ◌+◌, ◌≤◌, refl, List, [], ◌∷◌, ok, err, arith, done, false}
use vm_device.Address.Mmio.{MmioAddress, mmio_address}
use vm_device.Address.Pio.{PioAddress, pio_address}
use vm_device.Address.Pio
use vm_device.Device.Dummy
use vm_device.Address.Mmio
use vm_device.Range
use vm_device.Range.{BusRange}
use vm_device.Bus
use vm_device.Bus.{Bus}
use vm_device.Bus.Errors
use vm_device.Bus.View.{IsValid, view, find}
use vm_device.BTreeMap
use vm_device.Device.Arc
use vm_device.Device.Arc.{Arc, arc_device}
use vm_device.Device.Mutex.{Mutex, World, mutex_device}
use vm_device.Device.Dummy.{DummyDevice, dummy_device}
use vm_device.Resources.{Resource, pio_address_range, mmio_address_range, legacy_irq}
use vm_device.Manager.{
  IoManager, bus_read, bus_write, returned, register_mmio, register_pio, pio_manager, mmio_manager,
}
use vm_device.Manager.Resourceful.{
  register_mmio_resources, register_pio_resources, register_resources, deregister_resources,
}
use vm_device.Manager.Ranges.{pio_ranges, mmio_ranges}
use vm_device.Manager.Registration.{Registrable, Ends, set_ranges}
use vm_device.Manager.Dispatch.{
  Covers, bus_read_covered, bus_read_refused, bus_write_covered, bus_write_refused,
}
use vm_device.Manager.Outcomes.{
  IsValidManager, IsSizedResources, register_mmio_resources-Ends, register_pio_resources-Ends,
  register_resources-ok_iff, view-register_resources,
}
use mathlib.Core.List.{filter_map}
use vm_device.Manager.{pio_write, mmio_read, pio_manager, mmio_manager}
use vm_device.Manager.Overflow
use vm_device.Manager.Overflow.{accesses-same}
use vm_device.Manager.Shared.{pio_write-mmio_read}
use vm_device.Bus.History.{SpecRun}
use vm_device.Manager.History.{
  IoCall, registers_pio, registers_mmio, looks_up_pio, deregisters_mmio, looks_up_mmio, io_run,
  pio_call, mmio_call, pio_reply, mmio_reply, io_run-SpecRun,
}
use vm_device.Manager.RoundTrip.{deregister_resources-register_resources}

-- The device lies behind a mutex and a shared reference.
abbrev Shared : Type 0
Shared = Arc (Mutex DummyDevice)

abbrev dummy : Shared
dummy = record { pointee = record { address = 0 } }

abbrev world : World DummyDevice
world _ = record { poisoned = false; inner = record { config = 0x12345678 } }

abbrev at : ℕ → MmioAddress
at n = record { offset = n }

abbrev range : BusRange MmioAddress
range = record { base = at 0x1000; size = 0x400 }

abbrev mmio_bus : Bus MmioAddress Shared
mmio_bus = record { devices = (range, dummy) ∷ [] }

mmio_bus-IsValid : IsValid mmio_bus
unfolding mmio_address Mmio.value
mmio_bus-IsValid = record { chain = (omega arith, omega arith, tt) }

mmio_bus-Covers : Covers mmio_bus (at 0x1010) range dummy 4
unfolding view find mmio_address Mmio.value
mmio_bus-Covers = (omega arith, λ n low high. ground arith)

bus_read_covered_example :
    (offset : ℕ) × (0x1000 + offset ≡ 0x1010)
    × (offset + 4 ≤ 0x400)
    × (bus_read mmio_bus (at 0x1010) (0 ∷ 0 ∷ 0 ∷ 0 ∷ []) world
        ≡ returned (Arc.read dummy (at 0x1000) offset (0 ∷ 0 ∷ 0 ∷ 0 ∷ []) world))
unfolding mmio_address Mmio.value arc_device
bus_read_covered_example =
    bus_read_covered mmio_bus (at 0x1010) mmio_bus-IsValid world range dummy (0 ∷ 0 ∷ 0 ∷ 0 ∷ [])
      mmio_bus-Covers

bus_write_covered_example :
    (offset : ℕ) × (0x1000 + offset ≡ 0x1010)
    × (offset + 4 ≤ 0x400)
    × (bus_write mmio_bus (at 0x1010) (1 ∷ 0 ∷ 0 ∷ 0 ∷ []) world
        ≡ returned (Arc.write dummy (at 0x1000) offset (1 ∷ 0 ∷ 0 ∷ 0 ∷ []) world))
unfolding mmio_address Mmio.value arc_device
bus_write_covered_example =
    bus_write_covered mmio_bus (at 0x1010) mmio_bus-IsValid world range dummy (1 ∷ 0 ∷ 0 ∷ 0 ∷ [])
      mmio_bus-Covers

-- An access of four bytes that begins two bytes before the end of the range.
nothing-Covers : ¬ ((r : BusRange MmioAddress) × (d : Shared) × Covers mmio_bus (at 0x13fe) r d 4)
unfolding view find mmio_address Mmio.value
nothing-Covers (r, d, c) = ground (arith, c.1 0x1400)

bus_read_refused_example :
    (e : Errors.Error) × (bus_read mmio_bus (at 0x13fe) (0 ∷ 0 ∷ 0 ∷ 0 ∷ []) world
      ≡ (done (err e), world))
bus_read_refused_example =
    bus_read_refused mmio_bus (at 0x13fe) mmio_bus-IsValid world (0 ∷ 0 ∷ 0 ∷ 0 ∷ []) nothing-Covers

bus_write_refused_example :
    (e : Errors.Error) × (bus_write mmio_bus (at 0x13fe) (0 ∷ 0 ∷ 0 ∷ 0 ∷ []) world
      ≡ (done (err e), world))
bus_write_refused_example =
    bus_write_refused mmio_bus (at 0x13fe) mmio_bus-IsValid world (0 ∷ 0 ∷ 0 ∷ 0 ∷ [])
      nothing-Covers

-- The device with an entry on each bus.
abbrev ports : BusRange PioAddress
ports = record { base = record { offset = 0x60 }; size = 4 }

abbrev both_buses : IoManager Shared Shared
both_buses = record { pio_bus = record { devices = (ports, dummy) ∷ [] }; mmio_bus = mmio_bus }

both_buses-IsValid : IsValidManager both_buses
unfolding pio_address Pio.value
both_buses-IsValid = record {
  pio = record { chain = (omega arith, omega arith, tt) };
  mmio = mmio_bus-IsValid;
}

ports-Covers : Covers both_buses.pio_bus (record { offset = 0x61 }) ports dummy 1
unfolding view find pio_address Pio.value
ports-Covers = (omega arith, λ n low high. ground arith)

pio_write-mmio_read_example :
    let (x, w') = pio_write pio_manager both_buses (record { offset = 0x61 }) (0x2a ∷ []) world in
    let (y, w'') = mmio_read mmio_manager both_buses (at 0x1010) (0 ∷ 0 ∷ 0 ∷ 0 ∷ []) w' in
    (x ≡ done (ok tt))
    × (y ≡ done (ok (0x2a ∷ 0 ∷ 0 ∷ 0 ∷ [])))
    × (w'' 0 ≡ record { poisoned = false; inner = record { config = 0x2a } })
unfolding dummy_device Dummy.read Dummy.write Dummy.fill
pio_write-mmio_read_example =
    pio_write-mmio_read both_buses world dummy ports range (record { offset = 0x61 }) (at 0x1010)
      (0x2a ∷ []) (0 ∷ 0 ∷ 0 ∷ 0 ∷ []) (0x2a ∷ 0 ∷ 0 ∷ 0 ∷ []) (record { config = 0x2a })
      (record { config = 0x2a }) both_buses-IsValid refl ports-Covers mmio_bus-Covers refl refl
