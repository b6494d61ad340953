-- ===== src/Interrupt.antt =====
-- src/interrupt/mod.rs: the traits for interrupt sources, as interfaces, and their errors. The
-- objects have inner mutability: a handle `I` names one, and a call takes and returns the world `W`.
pub mod Legacy
pub mod Msi
pub mod Display
mod Tests
use vm_device.Prelude.{ℕ, Bool, Option, Result, err}

-- Errors associated with handling interrupts.
pub data Error : Type 0 where
  operation_not_supported : Error
  invalid_configuration : Error
  interrupt_not_changed : Error
  interrupt_not_triggered : Error
  interrupt_allocation_error : Error
  interrupt_free_error : Error

-- A call without a value.
abbrev pub Call : Type 0 → Type 0 → Type 0
Call W I = I → W → Result (Unit {0}) Error × W

pub record EdgeInterrupt (W I : Type 0) : Type 0 where
  pub trigger : Call W I

pub record LevelInterrupt (W I : Type 0) : Type 0 where
  pub assert : Call W I
  pub clear : Call W I

pub record InterruptStatusChecker (W C : Type 0) : Type 0 where
  pub is_active : C → W → Bool

pub record Interrupt (W I : Type 0) : Type 0 where
  pub enable : Call W I
  pub disable : Call W I

module _ {W I : Type 0} where
  -- The methods that the trait provides.
  unfoldable pub enable : Call W I
  enable i w = (err operation_not_supported, w)

  unfoldable pub disable : Call W I
  disable i w = (err operation_not_supported, w)

  unfoldable pub provided : Interrupt W I
  unfolding enable disable
  provided = record { enable = enable; disable = disable }

pub record ConfigurableInterrupt (W I Cfg : Type 0) : Type 0 where
  pub interrupt : Interrupt W I
  pub update : I → Cfg → W → Result (Unit {0}) Error × W
  pub get_config : I → W → Result Cfg Error

pub record MaskableInterrupt (W I : Type 0) : Type 0 where
  pub interrupt : Interrupt W I
  pub mask : Call W I
  pub unmask : Call W I

-- `C` is the shared reference to a status checker.
pub record AutoRetriggerInterrupt (W I C : Type 0) : Type 0 where
  pub interrupt : Interrupt W I
  pub checker : InterruptStatusChecker W C
  pub set_status_checker : I → C → W → Result (Unit {0}) Error × W

pub record AsRefTriggerNotifier (I NotifierType : Type 0) : Type 0 where
  pub trigger_notifier : I → NotifierType

pub record AsRefResampleNotifier (I NotifierType : Type 0) : Type 0 where
  pub resample_notifier : I → NotifierType

-- `G` is the group and `InterruptType` the handle that its wrapper gives.
pub record InterruptSourceGroup (W G InterruptType : Type 0) : Type 0 where
  pub interrupt : Interrupt W InterruptType
  pub is_empty : G → W → Bool
  pub len : G → W → ℕ
  pub enable : Call W G
  pub disable : Call W G
  pub get : G → ℕ → W → Option InterruptType
  pub allocate_interrupts : G → ℕ → W → Result (Unit {0}) Error × G × W
  pub free_interrupts : G → W → Result (Unit {0}) Error × G × W
