-- ===== src/Resources/Laws.antt =====
-- src/resources.rs: the getters of `DeviceResources`, against what each kind of resource says.
use Prim.Native.String.{String}
use mathlib.Core.List.{filter_map, head?, append_assoc, append-nil}
use mathlib.Core.Logic.{ite}
use vm_device.Prelude.{
  ℕ, ◌≡◌, refl, sym, ◌↔◌, List, [], ◌∷◌, ◌++◌, Option, none, some, arith, true, ◌∙◌,
}
use vm_device.Resources.{
  DeviceResources, Resource, MsiIrqType, pio_address_range, mmio_address_range, legacy_irq, msi_irq,
  mac_addresss, kvm_mem_slot, pci_msi, pci_msix, generic_msi, pio_loop, get_pio_address_ranges,
  mmio_loop, get_mmio_address_ranges, legacy_irq_loop, get_legacy_irq, msi_irqs_loop, get_msi_irqs,
  msi_eq, kvm_mem_slots_loop, get_kvm_mem_slots, mac_address_loop, get_mac_address,
  get_pci_msi_irqs, get_pci_msix_irqs, get_generic_msi_irqs, get_all_resources, new, append,
}

pub MsiIrqType-discrete : Discrete MsiIrqType
MsiIrqType-discrete = hlevel

-- What one resource says of each kind.
abbrev pub pio_of : Resource → Option (ℕ × ℕ)
pio_of (pio_address_range base size) = some (base, size)
pio_of _ = none

abbrev pub mmio_of : Resource → Option (ℕ × ℕ)
mmio_of (mmio_address_range base size) = some (base, size)
mmio_of _ = none

abbrev pub slot_of : Resource → Option ℕ
slot_of (kvm_mem_slot index) = some index
slot_of _ = none

abbrev pub irq_of : Resource → Option ℕ
irq_of (legacy_irq base) = some base
irq_of _ = none

abbrev pub msi_of : MsiIrqType → Resource → Option (ℕ × ℕ)
msi_of ty (msi_irq t base size) = ite (MsiIrqType-discrete ty t) (some (base, size)) none
msi_of ty _ = none

abbrev pub mac_of : Resource → Option String
mac_of (mac_addresss addr) = some addr
mac_of _ = none

pio_loop-filter_map :
    (vec : List (ℕ × ℕ)) (rs : List Resource) → pio_loop vec rs ≡ vec ++ filter_map pio_of rs
unfolding pio_loop filter_map
pio_loop-filter_map vec [] = sym (append-nil vec)
pio_loop-filter_map vec (pio_address_range base size ∷ rs) =
    pio_loop-filter_map (vec ++ (base, size) ∷ []) rs ∙ append_assoc vec _ _
pio_loop-filter_map vec (_ ∷ rs) = pio_loop-filter_map vec rs

mmio_loop-filter_map :
    (vec : List (ℕ × ℕ)) (rs : List Resource) → mmio_loop vec rs ≡ vec ++ filter_map mmio_of rs
unfolding mmio_loop filter_map
mmio_loop-filter_map vec [] = sym (append-nil vec)
mmio_loop-filter_map vec (mmio_address_range base size ∷ rs) =
    mmio_loop-filter_map (vec ++ (base, size) ∷ []) rs ∙ append_assoc vec _ _
mmio_loop-filter_map vec (_ ∷ rs) = mmio_loop-filter_map vec rs

kvm_mem_slots_loop-filter_map :
    (vec : List ℕ) (rs : List Resource) → kvm_mem_slots_loop vec rs ≡ vec ++ filter_map slot_of rs
unfolding kvm_mem_slots_loop filter_map
kvm_mem_slots_loop-filter_map vec [] = sym (append-nil vec)
kvm_mem_slots_loop-filter_map vec (kvm_mem_slot index ∷ rs) =
    kvm_mem_slots_loop-filter_map (vec ++ index ∷ []) rs ∙ append_assoc vec _ _
kvm_mem_slots_loop-filter_map vec (_ ∷ rs) = kvm_mem_slots_loop-filter_map vec rs

legacy_irq_loop-head? : (rs : List Resource) → legacy_irq_loop rs ≡ head? (filter_map irq_of rs)
unfolding legacy_irq_loop filter_map
legacy_irq_loop-head? [] = refl
legacy_irq_loop-head? (legacy_irq base ∷ rs) = refl
legacy_irq_loop-head? (_ ∷ rs) = legacy_irq_loop-head? rs

mac_address_loop-head? : (rs : List Resource) → mac_address_loop rs ≡ head? (filter_map mac_of rs)
unfolding mac_address_loop filter_map
mac_address_loop-head? [] = refl
mac_address_loop-head? (mac_addresss addr ∷ rs) = refl
mac_address_loop-head? (_ ∷ rs) = mac_address_loop-head? rs

msi_eq_iff : (t u : MsiIrqType) → (msi_eq t u ≡ true) ↔ (t ≡ u)
unfolding msi_eq
msi_eq_iff pci_msi pci_msi = (λ e. refl, λ e. refl)
msi_eq_iff pci_msix pci_msix = (λ e. refl, λ e. refl)
msi_eq_iff generic_msi generic_msi = (λ e. refl, λ e. refl)
msi_eq_iff pci_msi pci_msix = (λ e. cc, λ e. cc)
msi_eq_iff pci_msi generic_msi = (λ e. cc, λ e. cc)
msi_eq_iff pci_msix pci_msi = (λ e. cc, λ e. cc)
msi_eq_iff pci_msix generic_msi = (λ e. cc, λ e. cc)
msi_eq_iff generic_msi pci_msi = (λ e. cc, λ e. cc)
msi_eq_iff generic_msi pci_msix = (λ e. cc, λ e. cc)

msi_irqs_loop-head? :
    (ty : MsiIrqType) (rs : List Resource) → msi_irqs_loop ty rs ≡ head? (filter_map (msi_of ty) rs)
unfolding msi_irqs_loop filter_map
msi_irqs_loop-head? ty [] = refl
msi_irqs_loop-head? ty (msi_irq t base size ∷ rs) =
    ground (arith, msi_eq_iff ty t, msi_irqs_loop-head? ty rs)
msi_irqs_loop-head? ty (_ ∷ rs) = msi_irqs_loop-head? ty rs

-- Resources appended one by one.
pub append_all : DeviceResources → List Resource → DeviceResources
append_all r [] = r
append_all r (entry ∷ rs) = append_all (append r entry) rs

append_all-entries :
    (r : DeviceResources) (rs : List Resource) → (append_all r rs).entries ≡ r.entries ++ rs
unfolding append_all append
append_all-entries r [] = sym (append-nil r.entries)
append_all-entries r (entry ∷ rs) =
    append_all-entries (append r entry) rs ∙ append_assoc r.entries (entry ∷ []) rs

-- What each getter returns after resources were appended one by one to new device resources: the
-- getters of the address ranges and the memory slots, all that the resources of the kind say, in
-- the order in which they were appended; the getters of the legacy interrupt, of the interrupts of
-- each MSI type and of the MAC address, what the first of the kind says; and get_all_resources,
-- the resources in that order.
pub getters-append :
    (rs : List Resource)
    → let r = append_all new rs in
      (get_pio_address_ranges r ≡ filter_map pio_of rs)
      × (get_mmio_address_ranges r ≡ filter_map mmio_of rs)
      × (get_kvm_mem_slots r ≡ filter_map slot_of rs)
      × (get_legacy_irq r ≡ head? (filter_map irq_of rs))
      × ((ty : MsiIrqType) → get_msi_irqs r ty ≡ head? (filter_map (msi_of ty) rs))
      × (get_pci_msi_irqs r ≡ head? (filter_map (msi_of pci_msi) rs))
      × (get_pci_msix_irqs r ≡ head? (filter_map (msi_of pci_msix) rs))
      × (get_generic_msi_irqs r ≡ head? (filter_map (msi_of generic_msi) rs))
      × (get_mac_address r ≡ head? (filter_map mac_of rs))
      × (get_all_resources r ≡ rs)
unfolding new get_pio_address_ranges get_mmio_address_ranges get_kvm_mem_slots get_legacy_irq
    get_msi_irqs get_pci_msi_irqs get_pci_msix_irqs get_generic_msi_irqs get_mac_address
    get_all_resources
getters-append rs = rw (append_all-entries new rs) (
  pio_loop-filter_map [] rs,
  mmio_loop-filter_map [] rs,
  kvm_mem_slots_loop-filter_map [] rs,
  legacy_irq_loop-head? rs,
  λ ty. msi_irqs_loop-head? ty rs,
  msi_irqs_loop-head? pci_msi rs,
  msi_irqs_loop-head? pci_msix rs,
  msi_irqs_loop-head? generic_msi rs,
  mac_address_loop-head? rs,
  refl,
)
