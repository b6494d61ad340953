-- ===== src/Device/Mutex.antt =====
-- src/lib.rs: the blanket implementations for `Mutex<T>`, over a model of `std::sync::Mutex`.
-- The calls of one thread at a time are modelled: a lock that is held is not seen by another.
pub mod Laws
use vm_device.Prelude.{ℕ, List, Outcome, done, panic, Bool, true, false, ◌==◌, if◌then◌else◌}
use vm_device.Device.{Device, MutDevice}

-- What a mutex holds: the value, and whether a call has panicked while it held the lock.
pub record Guarded (T : Type 0) : Type 0 where
  pub poisoned : Bool
  pub inner : T

-- A mutex is known by its address. The world maps addresses to what the mutexes hold.
pub record Mutex (T : Type 0) : Type 0 where
  pub address : ℕ

abbrev pub World : Type 0 → Type 0
World T = ℕ → Guarded T

abbrev pub store : {T : Type 0} → World T → ℕ → Guarded T → World T
store w p g q = if q == p then g else w q

abbrev pub panicked {ℓ} : {X : Type ℓ} → Outcome X → Bool
panicked (done x) = false
panicked panic = true

-- `self.lock().unwrap().f(…)`: on a poisoned mutex the `unwrap` panics; a call that panics while
-- it holds the lock poisons the mutex.
unfoldable pub with_lock {ℓ} :
    {T : Type 0} {X : Type ℓ} → Mutex T → (T → Outcome X × T) → World T → Outcome X × World T
with_lock m f w =
    if (w m.address).poisoned
    then (panic, w)
    else (let (x, t) = f (w m.address).inner in
        (x, store w m.address (record { poisoned = panicked x; inner = t })))

module _ {A T : Type 0} ⦃dev : MutDevice A T⦄ where
  unfoldable pub read : Mutex T → A → ℕ → List ℕ → World T → Outcome (List ℕ) × World T
  unfolding with_lock
  read m base offset buffer = with_lock m (λ t. dev.read t base offset buffer)

  unfoldable pub write : Mutex T → A → ℕ → List ℕ → World T → Outcome (Unit {0}) × World T
  unfolding with_lock
  write m base offset buffer = with_lock m (λ t. dev.write t base offset buffer)

  instance unfoldable pub mutex_device : Device A (World T) (Mutex T)
  unfolding read write
  mutex_device = record { read = read; write = write }
