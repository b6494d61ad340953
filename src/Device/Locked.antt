-- ===== src/Device/Locked.antt =====
-- src/lib.rs and src/device_manager.rs: the device of the documentation of `DevicePio` and
-- `DeviceMmio`, and of the tests: it has a mutex inside, and locks it for each byte that it reads.
pub mod Laws
use vm_device.Prelude.{
  ℕ, suc, ◌*◌, ◌/◌, ◌%◌, ◌^◌, List, [], ◌∷◌, Outcome, done, panic, ltb, length, if◌then◌else◌,
}
use vm_device.Device.{Device}
use vm_device.Device.Mutex.{Mutex, World, with_lock}

pub record DummyDevice : Type 0 where
  pub config : Mutex ℕ

-- The loop of a read: each turn locks the mutex and puts byte `idx` of the word in its place.
unfoldable pub fill : Mutex ℕ → ℕ → List ℕ → World ℕ → Outcome (List ℕ) × World ℕ
fill config idx [] w = (done [], w)
fill config idx (_ ∷ rest) w =
    let (x, w') = with_lock config (λ word. (done (word / 2 ^ (idx * 8) % 256), word)) w in
    let (y, w'') = fill config (suc idx) rest w' in
    elim x [
      | panic ↦ (panic, w')
      | done byte ↦ (elim y [ panic ↦ panic | done bytes ↦ done (byte ∷ bytes) ], w'')
    ]

-- The index `data[0]` panics on an empty buffer, with the lock held.
unfoldable pub set_word : List ℕ → ℕ → Outcome (Unit {0}) × ℕ
set_word [] word = (panic, word)
set_word (byte ∷ rest) word = (done tt, byte % 256)

module _ {A : Type 0} where
  unfoldable pub read : DummyDevice → A → ℕ → List ℕ → World ℕ → Outcome (List ℕ) × World ℕ
  unfolding fill
  read d base offset buffer w =
      if ltb 4 (length buffer) then (done buffer, w) else fill d.config 0 buffer w

  unfoldable pub write : DummyDevice → A → ℕ → List ℕ → World ℕ → Outcome (Unit {0}) × World ℕ
  unfolding set_word
  write d base offset buffer = with_lock d.config (set_word buffer)

  instance unfoldable pub locked_device : Device A (World ℕ) DummyDevice
  unfolding read write
  locked_device = record { read = read; write = write }
