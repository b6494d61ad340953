-- ===== src/Resources/Tests.antt =====
-- The unit tests of src/resources.rs: the resources of one device, and what the getters return.
use mathlib.Core.List.{filter_map, head?}
use vm_device.Prelude.{◌≡◌, refl, List, [], ◌∷◌, some}
use vm_device.Resources.{
  Resource, MsiIrqType, get_pci_msi_irqs, get_pci_msix_irqs, get_generic_msi_irqs,
  get_all_resources, new, append, pio_address_range, mmio_address_range, legacy_irq, msi_irq,
  mac_addresss, kvm_mem_slot, pci_msi, pci_msix, generic_msi, get_pio_address_ranges,
  get_mmio_address_ranges, get_legacy_irq, get_msi_irqs, get_kvm_mem_slots, get_mac_address,
}
use vm_device.Resources.Laws.{msi_of, append_all, getters-append}

abbrev appended : List Resource
appended =
    pio_address_range 0 5
    ∷ mmio_address_range 0x12345678 0x87654321
    ∷ pio_address_range 16 8
    ∷ legacy_irq 0x168
    ∷ msi_irq pci_msi 0x6666 0x8888
    ∷ msi_irq pci_msix 0x8888 0x16666
    ∷ msi_irq generic_msi 0x16688 0x16888
    ∷ mac_addresss "00:08:63:66:86:88"
    ∷ kvm_mem_slot 0x100
    ∷ []

append_two :
    append (append new (legacy_irq 1)) (kvm_mem_slot 2)
    ≡ record { entries = legacy_irq 1 ∷ kvm_mem_slot 2 ∷ [] }
unfolding new append
append_two = refl

getters-append_example :
    let r = append_all new appended in
    (get_pio_address_ranges r ≡ (0, 5) ∷ (16, 8) ∷ [])
    × (get_mmio_address_ranges r ≡ (0x12345678, 0x87654321) ∷ [])
    × (get_kvm_mem_slots r ≡ 0x100 ∷ [])
    × (get_legacy_irq r ≡ some 0x168)
    × ((ty : MsiIrqType) → get_msi_irqs r ty ≡ head? (filter_map (msi_of ty) appended))
    × (get_pci_msi_irqs r ≡ head? (filter_map (msi_of pci_msi) appended))
    × (get_pci_msix_irqs r ≡ head? (filter_map (msi_of pci_msix) appended))
    × (get_generic_msi_irqs r ≡ head? (filter_map (msi_of generic_msi) appended))
    × (get_mac_address r ≡ some "00:08:63:66:86:88")
    × (get_all_resources r ≡ appended)
unfolding filter_map
getters-append_example = getters-append appended
