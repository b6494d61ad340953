-- ===== src/Interrupt/Legacy.antt =====
-- src/interrupt/legacy.rs: the pins and the configuration of legacy interrupts.
use vm_device.Prelude.{ℕ, Bool, Option, none, some, compare, Ordering, ◌==◌}
use vm_device.Interrupt.{ConfigurableInterrupt}

pub data IntXPin : Type 0 where
  int_a int_b int_c int_d : IntXPin

-- The number that a pin is declared with.
unfoldable pub discriminant : IntXPin → ℕ
discriminant int_a = 0x1
discriminant int_b = 0x2
discriminant int_c = 0x3
discriminant int_d = 0x4

-- The derived comparisons go by the number.
unfoldable pub eq : IntXPin → IntXPin → Bool
unfolding discriminant
eq p q = discriminant p == discriminant q

unfoldable pub partial_cmp : IntXPin → IntXPin → Option Ordering
unfolding discriminant
partial_cmp p q = some (compare (discriminant p) (discriminant q))

pub record LegacyIrqConfig : Type 0 where
  pub interrupt_line : Option ℕ
  pub interrupt_pin : Option IntXPin

unfoldable pub default : LegacyIrqConfig
default = record { interrupt_line = none; interrupt_pin = none }

abbrev pub LegacyInterrupt : Type 0 → Type 0 → Type 0
LegacyInterrupt W I = ConfigurableInterrupt W I LegacyIrqConfig
