-- ===== src/Resources/Constraint.antt =====
-- src/resources.rs: `ResourceConstraint` and its constructors.
use vm_device.Prelude.{ℕ, Option, none}

-- The fields of a constructor stand in the order of the source.
pub data ResourceConstraint : Type 0 where
  pio_address : Option (ℕ × ℕ) → ℕ → ℕ → ResourceConstraint
  mmio_address : Option (ℕ × ℕ) → ℕ → ℕ → ResourceConstraint
  legacy_irq : Option ℕ → ResourceConstraint
  pci_msi_irq : ℕ → ResourceConstraint
  pci_msix_irq : ℕ → ResourceConstraint
  generic_irq : ℕ → ResourceConstraint
  kvm_mem_slot : Option ℕ → ℕ → ResourceConstraint

unfoldable pub new_pio : ℕ → ResourceConstraint
new_pio size = pio_address none 0x1 size

unfoldable pub pio_with_constraints : ℕ → Option (ℕ × ℕ) → ℕ → ResourceConstraint
pio_with_constraints size range align = pio_address range align size

unfoldable pub new_mmio : ℕ → ResourceConstraint
new_mmio size = mmio_address none 0x1000 size

unfoldable pub mmio_with_constraints : ℕ → Option (ℕ × ℕ) → ℕ → ResourceConstraint
mmio_with_constraints size range align = mmio_address range align size

unfoldable pub new_legacy_irq : Option ℕ → ResourceConstraint
new_legacy_irq irq = legacy_irq irq

unfoldable pub new_kvm_mem_slot : ℕ → Option ℕ → ResourceConstraint
new_kvm_mem_slot size slot = kvm_mem_slot slot size
