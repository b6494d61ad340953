-- ===== src/Device/Dummy.antt =====
-- src/lib.rs: the device in the documentation of the mutable traits, a configuration word that is
-- read byte by byte, and of which a write sets the lowest byte and clears the others.
use vm_device.Prelude.{
  ℕ, suc, ◌*◌, ◌/◌, ◌%◌, ◌^◌, List, [], ◌∷◌, Outcome, done, panic, ltb, length, if◌then◌else◌,
}
use vm_device.Device.{MutDevice}

pub record DummyDevice : Type 0 where
  pub config : ℕ

-- The loop of a read: byte `idx` of the word goes to place `idx` of the buffer.
unfoldable pub fill : ℕ → ℕ → List ℕ → List ℕ
fill config idx [] = []
fill config idx (_ ∷ rest) = (config / 2 ^ (idx * 8) % 256) ∷ fill config (suc idx) rest

module _ {A : Type 0} where
  unfoldable pub read : DummyDevice → A → ℕ → List ℕ → Outcome (List ℕ) × DummyDevice
  unfolding fill
  read d base offset buffer =
      if ltb 4 (length buffer) then (done buffer, d) else (done (fill d.config 0 buffer), d)

  -- The index `data[0]` panics on an empty buffer.
  unfoldable pub write : DummyDevice → A → ℕ → List ℕ → Outcome (Unit {0}) × DummyDevice
  write d base offset [] = (panic, d)
  write d base offset (byte ∷ rest) = (done tt, record { config = byte % 256 })

  instance unfoldable pub dummy_device : MutDevice A DummyDevice
  unfolding read write
  dummy_device = record { read = read; write = write }
