-- ===== src/Device.antt =====
-- src/lib.rs: the device traits. A device lies behind a shared reference and has inner mutability:
-- a handle `D` names it, and its state is part of a world `W` that a call takes and returns.
-- `DevicePio` and `DeviceMmio` differ in the address type alone, and so do their mutable versions.
pub mod Arc
pub mod Mutex
pub mod Dummy
pub mod Locked
mod Tests
use vm_device.Prelude.{ℕ, List, Outcome}
use vm_device.Address.Mmio.{MmioAddress}
use vm_device.Address.Pio.{PioAddress}

-- A read takes the base of the device's range, the offset and the caller's buffer, and returns the
-- buffer as the device leaves it; a write takes the bytes to write. Either may panic.
pub record Device (A W D : Type 0) : Type 0 where
  pub read : D → A → ℕ → List ℕ → W → Outcome (List ℕ) × W
  pub write : D → A → ℕ → List ℕ → W → Outcome (Unit {0}) × W

abbrev pub DevicePio : Type 0 → Type 0 → Type 0
DevicePio W D = Device PioAddress W D

abbrev pub DeviceMmio : Type 0 → Type 0 → Type 0
DeviceMmio W D = Device MmioAddress W D

-- The methods that borrow the device mutably: they return the device after the call.
pub record MutDevice (A T : Type 0) : Type 0 where
  pub read : T → A → ℕ → List ℕ → Outcome (List ℕ) × T
  pub write : T → A → ℕ → List ℕ → Outcome (Unit {0}) × T

abbrev pub MutDevicePio : Type 0 → Type 0
MutDevicePio T = MutDevice PioAddress T

abbrev pub MutDeviceMmio : Type 0 → Type 0
MutDeviceMmio T = MutDevice MmioAddress T
