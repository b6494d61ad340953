-- ===== src/Resources.antt =====
-- src/resources.rs: the resources of a device, and the constraints it puts on their allocation.
-- Numbers of the types u16, u32 and u64 are numbers here.
pub mod Constraint
pub mod Laws
pub mod UnitTests
mod Tests
use Prim.Native.String.{String}
use vm_device.Prelude.{ℕ, List, [], ◌∷◌, ◌++◌, Option, none, some, Bool, true, false, if◌then◌else◌}

pub data MsiIrqType : Type 0 where
  pci_msi pci_msix generic_msi : MsiIrqType

-- The derived `==`.
unfoldable pub msi_eq : MsiIrqType → MsiIrqType → Bool
msi_eq pci_msi pci_msi = true
msi_eq pci_msix pci_msix = true
msi_eq generic_msi generic_msi = true
msi_eq _ _ = false

pub data Resource : Type 0 where
  pio_address_range : ℕ → ℕ → Resource
  mmio_address_range : ℕ → ℕ → Resource
  legacy_irq : ℕ → Resource
  msi_irq : MsiIrqType → ℕ → ℕ → Resource
  mac_addresss : String → Resource
  kvm_mem_slot : ℕ → Resource

pub record DeviceResources : Type 0 where
  pub entries : List Resource

unfoldable pub new : DeviceResources
new = record { entries = [] }

unfoldable pub append : DeviceResources → Resource → DeviceResources
append r entry = record { entries = r.entries ++ entry ∷ [] }

-- The loops push what they find to the end of a vector.
unfoldable pub pio_loop : List (ℕ × ℕ) → List Resource → List (ℕ × ℕ)
pio_loop vec [] = vec
pio_loop vec (pio_address_range base size ∷ rs) = pio_loop (vec ++ (base, size) ∷ []) rs
pio_loop vec (_ ∷ rs) = pio_loop vec rs

unfoldable pub get_pio_address_ranges : DeviceResources → List (ℕ × ℕ)
unfolding pio_loop
get_pio_address_ranges r = pio_loop [] r.entries

unfoldable pub mmio_loop : List (ℕ × ℕ) → List Resource → List (ℕ × ℕ)
mmio_loop vec [] = vec
mmio_loop vec (mmio_address_range base size ∷ rs) = mmio_loop (vec ++ (base, size) ∷ []) rs
mmio_loop vec (_ ∷ rs) = mmio_loop vec rs

unfoldable pub get_mmio_address_ranges : DeviceResources → List (ℕ × ℕ)
unfolding mmio_loop
get_mmio_address_ranges r = mmio_loop [] r.entries

unfoldable pub legacy_irq_loop : List Resource → Option ℕ
legacy_irq_loop [] = none
legacy_irq_loop (legacy_irq base ∷ rs) = some base
legacy_irq_loop (_ ∷ rs) = legacy_irq_loop rs

unfoldable pub get_legacy_irq : DeviceResources → Option ℕ
unfolding legacy_irq_loop
get_legacy_irq r = legacy_irq_loop r.entries

unfoldable pub msi_irqs_loop : MsiIrqType → List Resource → Option (ℕ × ℕ)
unfolding msi_eq
msi_irqs_loop ty [] = none
msi_irqs_loop ty (msi_irq msi_type base size ∷ rs) =
    let rest = msi_irqs_loop ty rs in if msi_eq ty msi_type then some (base, size) else rest
msi_irqs_loop ty (_ ∷ rs) = msi_irqs_loop ty rs

unfoldable pub get_msi_irqs : DeviceResources → MsiIrqType → Option (ℕ × ℕ)
unfolding msi_irqs_loop
get_msi_irqs r ty = msi_irqs_loop ty r.entries

unfoldable pub get_pci_msi_irqs : DeviceResources → Option (ℕ × ℕ)
unfolding get_msi_irqs
get_pci_msi_irqs r = get_msi_irqs r pci_msi

unfoldable pub get_pci_msix_irqs : DeviceResources → Option (ℕ × ℕ)
unfolding get_msi_irqs
get_pci_msix_irqs r = get_msi_irqs r pci_msix

unfoldable pub get_generic_msi_irqs : DeviceResources → Option (ℕ × ℕ)
unfolding get_msi_irqs
get_generic_msi_irqs r = get_msi_irqs r generic_msi

unfoldable pub kvm_mem_slots_loop : List ℕ → List Resource → List ℕ
kvm_mem_slots_loop vec [] = vec
kvm_mem_slots_loop vec (kvm_mem_slot index ∷ rs) = kvm_mem_slots_loop (vec ++ index ∷ []) rs
kvm_mem_slots_loop vec (_ ∷ rs) = kvm_mem_slots_loop vec rs

unfoldable pub get_kvm_mem_slots : DeviceResources → List ℕ
unfolding kvm_mem_slots_loop
get_kvm_mem_slots r = kvm_mem_slots_loop [] r.entries

unfoldable pub mac_address_loop : List Resource → Option String
mac_address_loop [] = none
mac_address_loop (mac_addresss addr ∷ rs) = some addr
mac_address_loop (_ ∷ rs) = mac_address_loop rs

unfoldable pub get_mac_address : DeviceResources → Option String
unfolding mac_address_loop
get_mac_address r = mac_address_loop r.entries

unfoldable pub get_all_resources : DeviceResources → List Resource
get_all_resources r = r.entries
