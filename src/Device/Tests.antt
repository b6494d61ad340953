-- ===== src/Device/Tests.antt =====
-- The examples in the documentation of src/lib.rs, and the theorems on a mutex at work.
use vm_device.Prelude.{ℕ, ◌≡◌, ◌≢◌, refl, List, [], ◌∷◌, Outcome, done, panic, true, false}
use vm_device.Address.Pio.{PioAddress}
use vm_device.Device.Dummy
use vm_device.Device.Dummy.{DummyDevice, fill}
use vm_device.Device.Mutex
use vm_device.Device.Dummy.{dummy_device}
use vm_device.Device.Locked
use vm_device.Device.Locked.Laws.{words, accesses-Mutex}
use vm_device.Device.Mutex.{Mutex, World}
use vm_device.Device.Mutex.Laws.{lock_each, direct, lock_each-direct}

abbrev device : DummyDevice
device = record { config = 0x1234 }

abbrev address : PioAddress
address = record { offset = 0 }

read_config : Dummy.read device address 0 (0 ∷ 0 ∷ 0 ∷ []) ≡ (done (0x34 ∷ 0x12 ∷ 0 ∷ []), device)
unfolding Dummy.read fill
read_config = refl

write_config : Dummy.write device address 0 (7 ∷ 8 ∷ []) ≡ (done tt, record { config = 7 })
unfolding Dummy.write
write_config = refl

abbrev mutex : Mutex DummyDevice
mutex = record { address = 3 }

abbrev world : World DummyDevice
world _ = record { poisoned = false; inner = device }

-- A write, an empty write, which panics, and a write that comes too late.
abbrev writes : List (DummyDevice → Outcome (Unit {0}) × DummyDevice)
writes =
    (λ d. Dummy.write d address 0 (7 ∷ []))
    ∷ (λ d. Dummy.write d address 0 [])
    ∷ (λ d. Dummy.write d address 0 (8 ∷ []))
    ∷ []

lock_each-direct_example :
    ((lock_each mutex writes world).0 ≡ done tt ∷ panic ∷ panic ∷ [])
    × ((lock_each mutex writes world).1 3
        ≡ record { poisoned = true; inner = record { config = 7 } })
    × ((q : ℕ) → q ≢ 3 → (lock_each mutex writes world).1 q ≡ world q)
unfolding direct Dummy.write
lock_each-direct_example = lock_each-direct mutex writes world refl

-- The device with a mutex inside, at the address of the mutex above.
abbrev locked : Locked.DummyDevice
locked = record { config = record { address = 3 } }

accesses-Mutex_example :
    let (x, after_read) = Mutex.read mutex address 0 (0 ∷ 0 ∷ []) world in
    let (y, after_write) = Mutex.write mutex address 0 (0 ∷ 0 ∷ []) world in
    (Locked.read locked address 0 (0 ∷ 0 ∷ []) (words world) ≡ (x, words after_read))
    × (Locked.write locked address 0 (0 ∷ 0 ∷ []) (words world) ≡ (y, words after_write))
accesses-Mutex_example = accesses-Mutex locked address 0 (0 ∷ 0 ∷ []) world refl
