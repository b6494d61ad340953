-- ===== src/Manager/Concurrent/Sequential.antt =====
-- src/device_manager.rs and src/lib.rs: the accesses of threads that share a manager, against the
-- same accesses one after the other.
use vm_device.Prelude.{
  ℕ, ◌<◌, ◌≡◌, ◌==◌, ◌∙◌, ap, sym, refl, List, [], ◌∷◌, Option, none, some, Outcome, done, panic,
  Result, arith, Bool-cases, inl, inr,
}
use vm_device.Bus.Errors
use vm_device.Device.{MutDevicePio, MutDeviceMmio}
use vm_device.Device.Arc.{Arc}
use vm_device.Device.Mutex.{Mutex, World}
use vm_device.Manager.{IoManager}
use vm_device.Manager.Concurrent.{
  Access, Answer, after, InTurn, Begun, IoSystem, made, ends, fails, begins, goes_on, IoReach,
  start, later,
}
use vm_device.Manager.Concurrent.Calls.{Performs, nothing, refused, called, Performs-InTurn}
use vm_device.Threads
use vm_device.Threads.{
  Body, Pc, idle, waiting, inside, Entry, System, update, Move, refuse, acquire, advance, crash,
  release, calls, moves, Reach,
}
use vm_device.Threads.Sequential.{threads_sequential}

-- The mutex that a thread waits for or has, and the body of its call.
abbrev call_of : {T X : Type 0} → Pc T X → Option (ℕ × Body T X)
call_of idle = none
call_of (waiting p body) = some (p, body)
call_of (inside p body xs fs) = some (p, body)

-- No step inside a call begins another.
call_of-Move :
    {T X : Type 0} {n : ℕ} {s s' : System T X}
    → Move n s s'
    → (j p : ℕ) (body : Body T X) → call_of (s'.pc j) ≡ some (p, body)
    → call_of (s.pc j) ≡ some (p, body)
call_of-Move {s} (refuse i q b h e k g) j p body l = elim (Bool-cases (j == i)) [
  | inl c ↦ ground arith
  | inr c ↦ ground arith
]
call_of-Move {s} (acquire i q b h e k g) j p body l = elim (Bool-cases (j == i)) [
  | inl c ↦ ground arith
  | inr c ↦ ground arith
]
call_of-Move {s} (advance i q b xs f fs x v h e r) j p body l = elim (Bool-cases (j == i)) [
  | inl c ↦ ground arith
  | inr c ↦ ground arith
]
call_of-Move {s} (crash i q b xs f fs v h e r) j p body l = elim (Bool-cases (j == i)) [
  | inl c ↦ ground arith
  | inr c ↦ ground arith
]
call_of-Move {s} (release i q b xs h e) j p body l = elim (Bool-cases (j == i)) [
  | inl c ↦ ground arith
  | inr c ↦ ground arith
]

module _ {T X : Type 0} ⦃pio : MutDevicePio T⦄ ⦃mmio : MutDeviceMmio T⦄
    {t : IoManager (Arc (Mutex T)) (Arc (Mutex T))} where
  -- What a thread has begun is the call that it waits for or is inside.
  Names : Option (Begun t X) → ℕ → Body T X → Type 0
  Names begun p body = (b : Begun t X) × (begun ≡ some b) × (b.address ≡ p) × (b.body ≡ body)

  record IoInv (n : ℕ) (w : World T) (s : IoSystem t X) : Type 0 where
    reach : Reach n w s.threads
    doing :
        (i p : ℕ) (body : Body T X)
        → call_of (s.threads.pc i) ≡ some (p, body)
        → Names (s.begun i) p body
    performs : Performs t s.ended s.threads.log

  made-Performs :
      {rs : List (Access × Outcome (Result Answer Errors.Error))} {es : List (Entry T X)} {p : ℕ}
      {body : Body T X} (begun : Option (Begun t X)) (r : Outcome (List X))
      → Names begun p body
      → Performs t rs es
      → Performs t (made t begun r rs) (record { address = p; body = body; outcome = r } ∷ es)
  unfolding Names
  made-Performs begun r (b, e, f, g) q = rw (e, sym f, sym g) (called b r q)

  start-IoInv :
      (n : ℕ) (w : World T)
      → IoInv n w (record {
        threads = record { mem = w; holder = λ _. none; pc = λ _. idle; log = [] };
        begun = λ _. none;
        ended = [];
      })
  start-IoInv n w = record { reach = Threads.start; doing = λ i p body l. cc; performs = nothing }

  begins-IoInv :
      {n : ℕ} {w : World T} {s : IoSystem t X} (i : ℕ) (b : Begun t X)
      → IoInv n w s
      → i < n
      → s.threads.pc i ≡ idle
      → IoInv n w (record s {
        threads = record s.threads { pc = update s.threads.pc i (waiting b.address b.body) };
        begun = update s.begun i (some b);
      })
  unfolding Names
  begins-IoInv {s} i b inv h e = record {
    reach = Threads.later inv.reach (calls i b.address b.body h e);
    doing = λ j p body l. elim (Bool-cases (j == i)) [
      | inl g ↦ (b, ground arith, ground arith, ground arith)
      | inr g ↦ let (c, x, y, z) = inv.doing j p body (ground arith) in (c, ground arith, y, z)
    ];
    performs = inv.performs;
  }

  goes_on-Performs :
      {n : ℕ} {w : World T} {s : IoSystem t X} {next : System T X}
      → IoInv n w s
      → (m : Move n s.threads next) → Performs t (ends t m s.begun s.ended) next.log
  goes_on-Performs {s} inv (refuse i p b h e k g) =
      made-Performs (s.begun i) panic (inv.doing i p b (rw e refl)) inv.performs
  goes_on-Performs {s} inv (acquire i p b h e k g) = inv.performs
  goes_on-Performs {s} inv (advance i p b xs f fs x v h e r) = inv.performs
  goes_on-Performs {s} inv (crash i p b xs f fs v h e r) =
      made-Performs (s.begun i) panic (inv.doing i p b (rw e refl)) inv.performs
  goes_on-Performs {s} inv (release i p b xs h e) =
      made-Performs (s.begun i) (done xs) (inv.doing i p b (rw e refl)) inv.performs

module _ {T X : Type 0} ⦃pio : MutDevicePio T⦄ ⦃mmio : MutDeviceMmio T⦄
    {t : IoManager (Arc (Mutex T)) (Arc (Mutex T))} {n : ℕ} {w : World T} where
  IoReach-IoInv : {s : IoSystem t X} → IoReach t n w s → IoInv n w s
  IoReach-IoInv start = start-IoInv n w
  IoReach-IoInv (later r (begins i b h e)) = begins-IoInv i b (IoReach-IoInv r) h e
  IoReach-IoInv (later {s} r (fails i a x h e k)) =
      let inv = IoReach-IoInv r in
      record { reach = inv.reach; doing = inv.doing; performs = refused a x k inv.performs }
  IoReach-IoInv (later {s} r (goes_on m)) =
      let inv = IoReach-IoInv r in
      record {
        reach = Threads.later inv.reach (moves m);
        doing = λ j p body l. inv.doing j p body (call_of-Move m j p body l);
        performs = goes_on-Performs inv m;
      }

  -- Threads share a manager whose devices lie behind mutexes, and make accesses in any order. In the
  -- order in which the accesses end, each gives what it gives when it is made alone, after those
  -- before it; and a mutex that no thread has holds what all of them leave.
  pub accesses_sequential :
      {s : IoSystem t X}
      → IoReach t n w s
      → InTurn t w s.ended
        × ((p : ℕ) → s.threads.holder p ≡ none → s.threads.mem p ≡ after t w s.ended p)
  accesses_sequential r =
      let inv = IoReach-IoInv r in
      let (agrees, free, _) = threads_sequential inv.reach in
      let (turn, same) = Performs-InTurn t w inv.performs agrees in
      (turn, λ p h. free p h ∙ ap (λ v. v p) (sym same))
