-- ===== src/Resources/UnitTests.antt =====
-- src/resources.rs: the unit tests.
use text.Mathlib.Text.{◌==◌ as str_eq}
use vm_device.Prelude.{
  ℕ, ◌≡◌, refl, List, [], ◌∷◌, Option, some, none, Bool, true, false, ◌&&◌, Outcome, done, panic,
  ◌==◌, length,
}
use vm_device.Prelude.Panic.{◌>>=◌, ◌>>◌, assert, unwrap}
use vm_device.Resources.{
  DeviceResources, new, append, pio_address_range, mmio_address_range, legacy_irq, msi_irq,
  mac_addresss, kvm_mem_slot, pci_msi, pci_msix, generic_msi, get_pio_address_ranges,
  get_mmio_address_ranges, get_legacy_irq, get_pci_msi_irqs, get_pci_msix_irqs,
  get_generic_msi_irqs, get_kvm_mem_slots, get_mac_address, get_all_resources, get_msi_irqs,
  msi_irqs_loop, msi_eq, pio_loop, mmio_loop, legacy_irq_loop, kvm_mem_slots_loop, mac_address_loop,
}
use vm_device.Resources.Constraint
use vm_device.Resources.Constraint.{ResourceConstraint}

-- The resources that the tests share, appended one by one.
unfoldable pub get_device_resource : DeviceResources
get_device_resource =
    let r0 = append new (pio_address_range 0 5) in
    let r1 = append r0 (mmio_address_range 0x12345678 0x87654321) in
    let r2 = append r1 (legacy_irq 0x168) in
    let r3 = append r2 (msi_irq pci_msi 0x6666 0x8888) in
    let r4 = append r3 (msi_irq pci_msix 0x8888 0x16666) in
    let r5 = append r4 (msi_irq generic_msi 0x16688 0x16888) in
    let r6 = append r5 (mac_addresss "00:08:63:66:86:88") in append r6 (kvm_mem_slot 0x100)

-- Equality of what the getters return.
abbrev same_pair : ℕ × ℕ → ℕ × ℕ → Bool
same_pair (a, b) (c, d) = (a == c) && (b == d)

abbrev first {ℓ} : {A : Type ℓ} → List A → Outcome A
first [] = panic
first (x ∷ xs) = done x

abbrev same_list : List ℕ → List ℕ → Bool
same_list [] [] = true
same_list (x ∷ xs) (y ∷ ys) = (x == y) && same_list xs ys
same_list _ _ = false

abbrev same_option {ℓ} : {A : Type ℓ} → (A → A → Bool) → Option A → Option A → Bool
same_option same none none = true
same_option same (some a) (some b) = same a b
same_option same _ _ = false

unfoldable pub test_getters : Outcome (Unit {0})
unfolding get_device_resource
test_getters = do
  let resources = get_device_resource
  pio ← first (get_pio_address_ranges resources)
  assert (same_pair pio (0, 5))
  mmio ← first (get_mmio_address_ranges resources)
  assert (same_pair mmio (0x12345678, 0x87654321))
  irq ← unwrap (get_legacy_irq resources)
  assert (irq == 0x168)
  msi ← unwrap (get_pci_msi_irqs resources)
  assert (same_pair msi (0x6666, 0x8888))
  msix ← unwrap (get_pci_msix_irqs resources)
  assert (same_pair msix (0x8888, 0x16666))
  generic ← unwrap (get_generic_msi_irqs resources)
  assert (same_pair generic (0x16688, 0x16888))
  mac ← unwrap (get_mac_address resources)
  assert (str_eq mac "00:08:63:66:86:88")
  assert (same_list (get_kvm_mem_slots resources) (0x100 ∷ []))
  assert (length (get_all_resources resources) == 8)

-- The constraint, taken apart as the pattern of the test does.
unfoldable pub test_resource_constraint : Outcome (Unit {0})
test_resource_constraint = do
  elim (Constraint.new_pio 2) [
    | ResourceConstraint.pio_address range align size ↦
        assert (same_option same_pair range none && ((align == 1) && (size == 2)))
    | _ ↦ panic
  ]
  elim (Constraint.pio_with_constraints 2 (some (15, 16)) 2) [
    | ResourceConstraint.pio_address range align size ↦
        assert (same_option same_pair range (some (15, 16)) && ((align == 2) && (size == 2)))
    | _ ↦ panic
  ]
  elim (Constraint.new_mmio 0x2000) [
    | ResourceConstraint.mmio_address range align size ↦
        assert (same_option same_pair range none && ((align == 0x1000) && (size == 0x2000)))
    | _ ↦ panic
  ]
  elim (Constraint.mmio_with_constraints 0x2000 (some (0x0, 0x2000)) 0x2000) [
    | ResourceConstraint.mmio_address range align size ↦ assert (
        same_option same_pair range (some (0x0, 0x2000)) && ((align == 0x2000) && (size == 0x2000)))
    | _ ↦ panic
  ]
  elim (Constraint.new_legacy_irq (some 0x123)) [
    | ResourceConstraint.legacy_irq irq ↦ assert (same_option ◌==◌ irq (some 0x123))
    | _ ↦ panic
  ]
  elim (Constraint.new_kvm_mem_slot 0x1000 (some 0x2000)) [
    | ResourceConstraint.kvm_mem_slot slot size ↦
        assert (same_option ◌==◌ slot (some 0x2000) && (size == 0x1000))
    | _ ↦ panic
  ]

tests-done : (test_getters ≡ done tt) × (test_resource_constraint ≡ done tt)
unfolding test_getters test_resource_constraint get_device_resource new append
    get_pio_address_ranges pio_loop get_mmio_address_ranges mmio_loop get_legacy_irq legacy_irq_loop
    get_pci_msi_irqs get_pci_msix_irqs get_generic_msi_irqs get_msi_irqs msi_irqs_loop msi_eq
    get_kvm_mem_slots kvm_mem_slots_loop get_mac_address mac_address_loop get_all_resources
    Constraint.new_pio Constraint.pio_with_constraints Constraint.new_mmio
    Constraint.mmio_with_constraints Constraint.new_legacy_irq Constraint.new_kvm_mem_slot
tests-done = (refl, refl)
