-- ===== src/Manager/Concurrent.antt =====
-- src/device_manager.rs and src/lib.rs: threads that share one `IoManager`, with devices behind
-- `Arc<Mutex<T>>`. An access looks its device up, which changes nothing, and then calls it.
pub mod Calls
pub mod Sequential
use vm_device.Prelude.{
  ℕ, ◌≡◌, ◌<◌, List, [], ◌∷◌, Option, none, some, Outcome, done, panic, Result, ok, err, length,
}
use vm_device.Address.Mmio.{MmioAddress, mmio_address}
use vm_device.Address.Mmio
use vm_device.Address.Pio.{PioAddress, pio_address}
use vm_device.Address.Pio
use vm_device.Range.{BusRange}
use vm_device.Bus.{check_access}
use vm_device.Bus.Errors
use vm_device.Device.{MutDevicePio, MutDeviceMmio}
use vm_device.Device.Arc.{Arc, arc_device}
use vm_device.Device.Mutex.{Mutex, World, mutex_device, with_lock}
use vm_device.Manager.{
  IoManager, bus_read, bus_write, pio_read, pio_write, mmio_read, mmio_write, pio_manager,
  mmio_manager, returned, and_then_call,
}
use vm_device.Threads.{
  Body, finish, System, idle, waiting, update, Move, refuse, acquire, advance, crash, release,
}

pub data Access : Type 0 where
  reads_pio : PioAddress → List ℕ → Access
  writes_pio : PioAddress → List ℕ → Access
  reads_mmio : MmioAddress → List ℕ → Access
  writes_mmio : MmioAddress → List ℕ → Access

-- What an access gives where it succeeds: the buffer of a read, or nothing.
pub data Answer : Type 0 where
  bytes : List ℕ → Answer
  written : Unit {0} → Answer

abbrev pub answered {ℓ κ} :
    {W : Type 0} {X : Type ℓ} {Y : Type κ} → (X → Y) → Outcome X × W → Outcome Y × W
answered f p = (elim p.0 [ done x ↦ done (f x) | panic ↦ panic ], p.1)

abbrev pub on_ok {ℓ κ} :
    {X : Type ℓ} {Y : Type κ} → (X → Y) → Result X Errors.Error → Result Y Errors.Error
on_ok f (ok x) = ok (f x)
on_ok f (err e) = err e

-- Of the range and the device of a check, the address of the mutex and the call on its value.
abbrev pub located {ℓ} :
    {A T : Type 0} {X : Type ℓ}
    → (X → Answer)
    → (BusRange A → T → Outcome X × T)
    → Result (BusRange A × Arc (Mutex T)) Errors.Error
    → Result (ℕ × (T → Outcome Answer × T)) Errors.Error
located c f (err e) = err e
located c f (ok (r, d)) = ok (d.pointee.address, λ x. answered c (f r x))

-- The end of a body, as the end of the access.
abbrev pub answer_of {ℓ} :
    {X : Type ℓ} → (X → Answer) → Outcome X → Outcome (Result Answer Errors.Error)
answer_of c (done x) = done (ok (c x))
answer_of c panic = panic

module _ {T : Type 0} ⦃pio : MutDevicePio T⦄ ⦃mmio : MutDeviceMmio T⦄
    (t : IoManager (Arc (Mutex T)) (Arc (Mutex T))) where
  -- An access through the manager.
  unfoldable pub io_access : Access → World T → Outcome (Result Answer Errors.Error) × World T
  unfolding pio_read pio_write mmio_read mmio_write
  io_access (reads_pio addr buffer) w =
      answered (on_ok bytes) (pio_read pio_manager t addr buffer w)
  io_access (writes_pio addr data') w =
      answered (on_ok written) (pio_write pio_manager t addr data' w)
  io_access (reads_mmio addr buffer) w =
      answered (on_ok bytes) (mmio_read mmio_manager t addr buffer w)
  io_access (writes_mmio addr data') w =
      answered (on_ok written) (mmio_write mmio_manager t addr data' w)

  -- The accesses of a list, one after the other, the last one first in the list.
  abbrev pub after : World T → List (Access × Outcome (Result Answer Errors.Error)) → World T
  after w [] = w
  after w ((a, r) ∷ rs) = (io_access a (after w rs)).1

  abbrev pub InTurn : World T → List (Access × Outcome (Result Answer Errors.Error)) → Type 0
  InTurn w [] = Unit
  InTurn w ((a, r) ∷ rs) = ((io_access a (after w rs)).0 ≡ r) × InTurn w rs

  -- The mutex that an access locks, and the method that it calls on the value behind it.
  unfoldable pub find_call : Access → Result (ℕ × (T → Outcome Answer × T)) Errors.Error
  find_call (reads_pio addr buffer) =
      located bytes (λ r x. pio.read x r.base (Pio.sub addr r.base) buffer)
        (check_access ⦃o = pio_address⦄ t.pio_bus addr (length buffer))
  find_call (writes_pio addr data') =
      located written (λ r x. pio.write x r.base (Pio.sub addr r.base) data')
        (check_access ⦃o = pio_address⦄ t.pio_bus addr (length data'))
  find_call (reads_mmio addr buffer) =
      located bytes (λ r x. mmio.read x r.base (Mmio.sub addr r.base) buffer)
        (check_access ⦃o = mmio_address⦄ t.mmio_bus addr (length buffer))
  find_call (writes_mmio addr data') =
      located written (λ r x. mmio.write x r.base (Mmio.sub addr r.base) data')
        (check_access ⦃o = mmio_address⦄ t.mmio_bus addr (length data'))

  -- A call that an access makes: the device that is found, and its method split into steps, whose
  -- results `collect` makes the answer of.
  pub record Begun (X : Type 0) : Type 0 where
    pub access : Access
    pub address : ℕ
    pub method : T → Outcome Answer × T
    pub body : Body T X
    pub collect : List X → Answer
    pub finds : find_call access ≡ ok (address, method)
    pub splits : (x : T) → method x ≡ answered collect (finish [] body x)

  -- The threads, the access that each has begun, and the accesses that have ended with what they
  -- give, the last one first.
  pub record IoSystem (X : Type 0) : Type 0 where
    pub threads : System T X
    pub begun : ℕ → Option (Begun X)
    pub ended : List (Access × Outcome (Result Answer Errors.Error))

  abbrev pub made :
      {X : Type 0}
      → Option (Begun X)
      → Outcome (List X)
      → List (Access × Outcome (Result Answer Errors.Error))
      → List (Access × Outcome (Result Answer Errors.Error))
  made none r rs = rs
  made (some b) r rs = (b.access, answer_of b.collect r) ∷ rs

  -- What the step of a thread inside a call adds to the accesses that have ended.
  abbrev pub ends :
      {X : Type 0} {n : ℕ} {s s' : System T X}
      → Move n s s'
      → (ℕ → Option (Begun X))
      → List (Access × Outcome (Result Answer Errors.Error))
      → List (Access × Outcome (Result Answer Errors.Error))
  ends (refuse i p body h e k g) b rs = made (b i) panic rs
  ends (acquire i p body h e k g) b rs = rs
  ends (advance i p body xs f fs x v h e r) b rs = rs
  ends (crash i p body xs f fs v h e r) b rs = made (b i) panic rs
  ends (release i p body xs h e) b rs = made (b i) (done xs) rs

  module _ {X : Type 0} (n : ℕ) where
    pub data IoStep (s : IoSystem X) : IoSystem X → Type 0 where
      -- An access that finds no device makes no call.
      fails :
          (i : ℕ) (a : Access) (e : Errors.Error)
          → i < n
          → s.threads.pc i ≡ idle
          → find_call a ≡ err e
          → IoStep s (record s { ended = (a, done (err e)) ∷ s.ended })
      begins :
          (i : ℕ) (b : Begun X)
          → i < n
          → s.threads.pc i ≡ idle
          → IoStep s (record s {
            threads = record s.threads { pc = update s.threads.pc i (waiting b.address b.body) };
            begun = update s.begun i (some b);
          })
      goes_on :
          {next : System T X} (m : Move n s.threads next)
          → IoStep s (record s { threads = next; ended = ends m s.begun s.ended })

    pub data IoReach (w : World T) : IoSystem X → Type 0 where
      start : IoReach w (record {
        threads = record { mem = w; holder = λ _. none; pc = λ _. idle; log = [] };
        begun = λ _. none;
        ended = [];
      })
      later : {s s' : IoSystem X} → IoReach w s → IoStep s s' → IoReach w s'
