-- ===== src/Threads.antt =====
-- src/lib.rs: the blanket implementations for `Mutex<T>`, called by several threads at once. A call
-- on a mutex waits for the lock, runs the method of the value in steps between which other threads
-- may run, and releases the lock; threads take turns in any order.
pub mod Invariant
pub mod Sequential
pub mod Progress
mod Tests
use vm_device.Prelude.{
  ℕ, ◌≡◌, ◌<◌, ◌==◌, List, [], ◌∷◌, ◌++◌, Option, none, some, Outcome, done, panic, true, false,
  if◌then◌else◌,
}
use vm_device.Device.Mutex.{World, store}

-- The body of a method, as the steps that it makes on the value behind the lock. A step may panic.
abbrev pub Body : Type 0 → Type 0 → Type 0
Body T X = List (T → Outcome X × T)

-- The rest of a body, run without a pause after the results that there are. A panic ends it.
unfoldable pub finish : {T X : Type 0} → List X → Body T X → T → Outcome (List X) × T
finish xs [] t = (done xs, t)
finish xs (f ∷ fs) t =
    let (r, t') = f t in elim r [ done x ↦ finish (xs ++ x ∷ []) fs t' | panic ↦ (panic, t') ]

-- Where a thread stands. Inside, it has the guard of the mutex at an address, in a call of a body,
-- with the results so far and the steps that are left.
pub data Pc (T X : Type 0) : Type 0 where
  idle : Pc T X
  waiting : ℕ → Body T X → Pc T X
  inside : ℕ → Body T X → List X → Body T X → Pc T X

-- A call that has ended.
pub record Entry (T X : Type 0) : Type 0 where
  pub address : ℕ
  pub body : Body T X
  pub outcome : Outcome (List X)

-- The values of the mutexes, which thread has the guard of each, where the threads stand, and the
-- calls that have ended, the last one first.
pub record System (T X : Type 0) : Type 0 where
  pub mem : World T
  pub holder : ℕ → Option ℕ
  pub pc : ℕ → Pc T X
  pub log : List (Entry T X)

abbrev pub update {ℓ} : {A : Type ℓ} → (ℕ → A) → ℕ → A → ℕ → A
update f i a j = if j == i then a else f j

module _ {T X : Type 0} (n : ℕ) where
  -- A step of one of the first `n` threads inside a call.
  pub data Move (s : System T X) : System T X → Type 0 where
    -- `lock()` on a poisoned mutex, and the `unwrap` of its error.
    refuse :
        (i p : ℕ) (body : Body T X)
        → i < n
        → s.pc i ≡ waiting p body
        → s.holder p ≡ none
        → (s.mem p).poisoned ≡ true
        → Move s (record s {
          pc = update s.pc i idle;
          log = record { address = p; body = body; outcome = panic } ∷ s.log;
        })
    acquire :
        (i p : ℕ) (body : Body T X)
        → i < n
        → s.pc i ≡ waiting p body
        → s.holder p ≡ none
        → (s.mem p).poisoned ≡ false
        → Move s (record s {
          holder = update s.holder p (some i);
          pc = update s.pc i (inside p body [] body);
        })
    advance :
        (i p : ℕ) (body : Body T X) (xs : List X) (f : T → Outcome X × T) (fs : Body T X) (x : X)
        (t : T)
        → i < n
        → s.pc i ≡ inside p body xs (f ∷ fs)
        → f (s.mem p).inner ≡ (done x, t)
        → Move s (record s {
          mem = store s.mem p (record { poisoned = (s.mem p).poisoned; inner = t });
          pc = update s.pc i (inside p body (xs ++ x ∷ []) fs);
        })
    -- The panic drops the guard, which poisons the mutex and releases it.
    crash :
        (i p : ℕ) (body : Body T X) (xs : List X) (f : T → Outcome X × T) (fs : Body T X) (t : T)
        → i < n
        → s.pc i ≡ inside p body xs (f ∷ fs)
        → f (s.mem p).inner ≡ (panic, t)
        → Move s (record {
          mem = store s.mem p (record { poisoned = true; inner = t });
          holder = update s.holder p none;
          pc = update s.pc i idle;
          log = record { address = p; body = body; outcome = panic } ∷ s.log;
        })
    release :
        (i p : ℕ) (body : Body T X) (xs : List X)
        → i < n
        → s.pc i ≡ inside p body xs []
        → Move s (record s {
          holder = update s.holder p none;
          pc = update s.pc i idle;
          log = record { address = p; body = body; outcome = done xs } ∷ s.log;
        })

  -- A thread may also call a method.
  pub data Step (s : System T X) : System T X → Type 0 where
    calls :
        (i p : ℕ) (body : Body T X)
        → i < n
        → s.pc i ≡ idle
        → Step s (record s { pc = update s.pc i (waiting p body) })
    moves : {t : System T X} → Move s t → Step s t

  pub data Reach (w : World T) : System T X → Type 0 where
    start : Reach w (record { mem = w; holder = λ _. none; pc = λ _. idle; log = [] })
    later : {s t : System T X} → Reach w s → Step s t → Reach w t
