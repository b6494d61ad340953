-- ===== src/Device/Arc.antt =====
-- src/lib.rs: the blanket implementations for `Arc<T>`, which pass each call on to the pointee.
use vm_device.Prelude.{ℕ, List, Outcome}
use vm_device.Device.{Device}

-- Clones of an `Arc` share one pointee: they are one handle.
pub record Arc (T : Type 0) : Type 0 where
  pub pointee : T

module _ {A W T : Type 0} ⦃dev : Device A W T⦄ where
  unfoldable pub read : Arc T → A → ℕ → List ℕ → W → Outcome (List ℕ) × W
  read arc base offset buffer = dev.read arc.pointee base offset buffer

  unfoldable pub write : Arc T → A → ℕ → List ℕ → W → Outcome (Unit {0}) × W
  write arc base offset buffer = dev.write arc.pointee base offset buffer

  instance unfoldable pub arc_device : Device A W (Arc T)
  unfolding read write
  arc_device = record { read = read; write = write }
