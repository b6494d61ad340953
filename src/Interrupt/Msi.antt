-- ===== src/Interrupt/Msi.antt =====
-- src/interrupt/msi.rs: the configuration of message signaled interrupts.
use vm_device.Prelude.{ℕ}
use vm_device.Interrupt.{ConfigurableInterrupt, MaskableInterrupt}

-- The field `data` of the source is `data_word`, since `data` is a reserved word.
pub record MsiIrqConfig : Type 0 where
  pub high_addr : ℕ
  pub low_addr : ℕ
  pub data_word : ℕ
  pub devid : ℕ

unfoldable pub default : MsiIrqConfig
default = record { high_addr = 0; low_addr = 0; data_word = 0; devid = 0 }

pub record MsiInterrupt (W I : Type 0) : Type 0 where
  pub configurable : ConfigurableInterrupt W I MsiIrqConfig
  pub maskable : MaskableInterrupt W I
