-- ===== src/Threads/Invariant.antt =====
-- src/lib.rs: the invariant of threads on mutexes, which compares every mutex with the calls that
-- have ended, run one after the other.
use vm_device.Prelude.{
  ℕ, ◌≤◌, ◌≡◌, ◌≢◌, refl, List, [], ◌∷◌, none, some, Outcome, panic, true, false, arith,
}
use vm_device.Device.Mutex.{World, panicked, with_lock}
use vm_device.Threads.{Body, finish, idle, inside, Entry, System}

module _ {T X : Type 0} where
  -- One call, without a pause, on the mutex that it names.
  abbrev pub at_once : Entry T X → World T → Outcome (List X) × World T
  at_once e w = with_lock (record { address = e.address }) (finish [] e.body) w

  -- The calls of a log, one after the other, the last one first in the list.
  abbrev pub replay : World T → List (Entry T X) → World T
  replay w [] = w
  replay w (e ∷ es) = (at_once e (replay w es)).1

  -- Each call of a log has the outcome that it has in that order.
  abbrev pub Agrees : World T → List (Entry T X) → Type 0
  Agrees w [] = Unit
  Agrees w (e ∷ es) = ((at_once e (replay w es)).0 ≡ e.outcome) × Agrees w es

  pub record Inv (n : ℕ) (w : World T) (s : System T X) : Type 0 where
    pub few : (i : ℕ) → n ≤ i → s.pc i ≡ idle
    pub owner :
        (i p : ℕ) (body : Body T X) (xs : List X) (fs : Body T X)
        → s.pc i ≡ inside p body xs fs
        → s.holder p ≡ some i
    pub held :
        (i p : ℕ)
        → s.holder p ≡ some i
        → (body : Body T X) × (xs : List X) × (fs : Body T X) × (s.pc i ≡ inside p body xs fs)
    pub free : (p : ℕ) → s.holder p ≡ none → s.mem p ≡ replay w s.log p
    pub sound :
        (i p : ℕ) (body : Body T X) (xs : List X) (fs : Body T X)
        → s.pc i ≡ inside p body xs fs
        → ((s.mem p).poisoned ≡ false)
          × ((replay w s.log p).poisoned ≡ false)
          × (finish xs fs (s.mem p).inner ≡ finish [] body (replay w s.log p).inner)
    pub agrees : Agrees w s.log

  -- A call on one mutex leaves the others as they are.
  pub with_lock-there :
      (p q : ℕ) (f : T → Outcome (List X) × T) (w : World T)
      → q ≢ p
      → (with_lock (record { address = p }) f w).1 q ≡ w q
  unfolding with_lock
  with_lock-there p q f w h = ground arith

  pub with_lock-here :
      (p : ℕ) (f : T → Outcome (List X) × T) (w : World T) (r : Outcome (List X)) (t : T)
      → (w p).poisoned ≡ false
      → f (w p).inner ≡ (r, t)
      → let (x, w') = with_lock (record { address = p }) f w in
        (x ≡ r) × (w' p ≡ record { poisoned = panicked r; inner = t })
  unfolding with_lock
  with_lock-here p f w r t h e = ground arith

  pub with_lock-refused :
      (p : ℕ) (f : T → Outcome (List X) × T) (w : World T)
      → (w p).poisoned ≡ true
      → with_lock (record { address = p }) f w ≡ (panic, w)
  unfolding with_lock
  with_lock-refused p f w h = ground arith

  pub start-Inv :
      (n : ℕ) (w : World T)
      → Inv n w (record { mem = w; holder = λ _. none; pc = λ _. idle; log = [] })
  start-Inv n w = record {
    few = λ i h. refl;
    owner = λ i p body xs fs e. cc;
    held = λ i p e. cc;
    free = λ p e. refl;
    sound = λ i p body xs fs e. cc;
    agrees = tt;
  }
