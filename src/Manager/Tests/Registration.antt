-- ===== src/Manager/Tests/Registration.antt =====
-- The theorems of src/device_manager.rs on registrations and sequences of calls, at a manager that
-- has no device at first.
use vm_device.Prelude.{◌≡◌, ◌↔◌, refl, List, [], ◌∷◌, ok, arith, done}
use vm_device.Address.Mmio.{mmio_address}
use vm_device.Address.Pio.{pio_address}
use vm_device.Range
use vm_device.Range.{BusRange}
use vm_device.Bus
use vm_device.Bus.{Bus}
use vm_device.Bus.View.{view}
use vm_device.BTreeMap
use vm_device.Device.Arc.{arc_device}
use vm_device.Device.Mutex.{mutex_device}
use vm_device.Device.Dummy.{dummy_device}
use vm_device.Resources.{Resource, pio_address_range, mmio_address_range, legacy_irq}
use vm_device.Manager.{IoManager, register_mmio, register_pio, pio_manager, mmio_manager}
use vm_device.Manager.Resourceful.{
  register_mmio_resources, register_pio_resources, register_resources, deregister_resources,
}
use vm_device.Manager.Ranges.{pio_ranges, mmio_ranges}
use vm_device.Manager.Registration.{Registrable, Ends, set_ranges}
use vm_device.Manager.Outcomes.{
  IsValidManager, IsSizedResources, register_mmio_resources-Ends, register_pio_resources-Ends,
  register_resources-ok_iff, view-register_resources,
}
use mathlib.Core.List.{filter_map}
use vm_device.Manager.{pio_manager, mmio_manager}
use vm_device.Manager.RoundTrip.{deregister_resources-register_resources}
use vm_device.Manager.Tests.{Shared, dummy}

-- A manager without devices, and the resources of a device on both buses.
abbrev pub no_devices : IoManager Shared Shared
no_devices = record { pio_bus = record { devices = [] }; mmio_bus = record { devices = [] } }

pub no_devices-IsValid : IsValidManager no_devices
no_devices-IsValid = record { pio = record { chain = tt }; mmio = record { chain = tt } }

abbrev pub resources : List Resource
resources =
    pio_address_range 0x60 4
    ∷ legacy_irq 4
    ∷ mmio_address_range 0x1000 0x400
    ∷ pio_address_range 0x70 2
    ∷ []

pub resources-IsSized : IsSizedResources resources
unfolding pio_address mmio_address filter_map
resources-IsSized = record { pio = (omega arith, (omega arith, tt)); mmio = (omega arith, tt) }

resources_registered :
    (register_resources (λ d. d) (λ d. d) no_devices dummy resources).1 ≡ done (ok tt)
unfolding register_resources register_mmio_resources register_pio_resources register_mmio
    register_pio pio_manager mmio_manager Bus.register Bus.overlaps_any Range.overlaps Range.new
    BTreeMap.insert Range.cmp pio_address mmio_address
resources_registered = refl

register_mmio_resources-Ends_example :
    let (t', x) = register_mmio_resources no_devices dummy resources in
    IsValidManager t'
    × (t'.pio_bus ≡ no_devices.pio_bus)
    × Ends ⦃o = mmio_address⦄
        (view ⦃o = mmio_address⦄ no_devices.mmio_bus)
        dummy
        (mmio_ranges resources)
        (view ⦃o = mmio_address⦄ t'.mmio_bus)
        x
register_mmio_resources-Ends_example =
    register_mmio_resources-Ends no_devices resources no_devices-IsValid resources-IsSized dummy

register_pio_resources-Ends_example :
    let (t', x) = register_pio_resources no_devices dummy resources in
    IsValidManager t'
    × (t'.mmio_bus ≡ no_devices.mmio_bus)
    × Ends ⦃o = pio_address⦄
        (view ⦃o = pio_address⦄ no_devices.pio_bus)
        dummy
        (pio_ranges resources)
        (view ⦃o = pio_address⦄ t'.pio_bus)
        x
register_pio_resources-Ends_example =
    register_pio_resources-Ends no_devices resources no_devices-IsValid resources-IsSized dummy

register_resources-ok_iff_example :
    ((register_resources (λ d. d) (λ d. d) no_devices dummy resources).1 ≡ done (ok tt)) ↔ (
      Registrable ⦃o = mmio_address⦄
        (view ⦃o = mmio_address⦄ no_devices.mmio_bus)
        dummy
        (mmio_ranges resources)
      × Registrable ⦃o = pio_address⦄
          (view ⦃o = pio_address⦄ no_devices.pio_bus)
          dummy
          (pio_ranges resources))
register_resources-ok_iff_example =
    register_resources-ok_iff no_devices resources no_devices-IsValid resources-IsSized (λ d. d)
      (λ d. d) dummy

view-register_resources_example :
    let t' = (register_resources (λ d. d) (λ d. d) no_devices dummy resources).0 in
    (view ⦃o = mmio_address⦄ t'.mmio_bus
      ≡ set_ranges ⦃o = mmio_address⦄
          (view ⦃o = mmio_address⦄ no_devices.mmio_bus)
          dummy
          (mmio_ranges resources))
    × (view ⦃o = pio_address⦄ t'.pio_bus
        ≡ set_ranges ⦃o = pio_address⦄
            (view ⦃o = pio_address⦄ no_devices.pio_bus)
            dummy
            (pio_ranges resources))
view-register_resources_example =
    view-register_resources no_devices resources no_devices-IsValid resources-IsSized (λ d. d)
      (λ d. d) dummy resources_registered

deregister_resources-register_resources_example :
    deregister_resources
      (register_resources (λ d. d) (λ d. d) no_devices dummy resources).0
      resources
    ≡ (no_devices, 3)
unfolding filter_map
deregister_resources-register_resources_example =
    deregister_resources-register_resources (λ d. d) (λ d. d) no_devices dummy resources
      no_devices-IsValid resources-IsSized resources_registered
