-- ===== src/Threads/Sequential.antt =====
-- src/lib.rs: threads that call methods behind mutexes in any order, against the same calls one
-- after the other.
use vm_device.Prelude.{
  ℕ, ◌<◌, ◌≡◌, ◌≢◌, ◌==◌, ◌∙◌, sym, ap, refl, List, [], ◌∷◌, ◌++◌, none, some, Outcome, done, panic,
  true, false, arith, Bool-cases, inl, inr,
}
use mathlib.Core.Path.{fun_ext}
use vm_device.Device.Mutex.{World, store, panicked}
use vm_device.Threads.{
  Body, finish, idle, waiting, inside, System, update, Move, refuse, acquire, advance, crash,
  release, calls, moves, Reach, start, later,
}
use vm_device.Threads.Invariant.{
  replay, Agrees, Inv, with_lock-there, with_lock-here, with_lock-refused, start-Inv,
}

module _ {T X : Type 0} {n : ℕ} {w : World T} {s : System T X} (inv : Inv n w s) where
  open inv use {few, owner, held, free, sound, agrees}

  calls-Inv :
      (i p : ℕ) (body : Body T X)
      → i < n
      → s.pc i ≡ idle
      → Inv n w (record s { pc = update s.pc i (waiting p body) })
  calls-Inv i p body h e = record {
    few = λ j k. ground (arith, few j k);
    owner = λ j q b xs fs k. ground (arith, owner j q b xs fs);
    held = λ j q k. let (b, xs, fs, at) = held j q k in (b, xs, fs, ground arith);
    free = free;
    sound = λ j q b xs fs k. sound j q b xs fs (ground arith);
    agrees = agrees;
  }

  acquire-Inv :
      (i p : ℕ) (body : Body T X)
      → i < n
      → s.pc i ≡ waiting p body
      → s.holder p ≡ none
      → (s.mem p).poisoned ≡ false
      → Inv n w (record s {
        holder = update s.holder p (some i);
        pc = update s.pc i (inside p body [] body);
      })
  acquire-Inv i p body h e k g = record {
    few = λ j l. ground (arith, few j l);
    owner = λ j q b xs fs l. ground (arith, owner j q b xs fs);
    held = λ j q l. elim (Bool-cases (q == p)) [
      | inl here ↦ (body, [], body, ground arith)
      | inr there ↦ let (b, xs, fs, at) = held j q (ground arith) in (b, xs, fs, ground arith)
    ];
    free = λ q l. free q (ground arith);
    sound = λ j q b xs fs l. ground (arith, sound j q b xs fs, free q, free p);
    agrees = agrees;
  }

  refuse-Inv :
      (i p : ℕ) (body : Body T X)
      → i < n
      → s.pc i ≡ waiting p body
      → s.holder p ≡ none
      → (s.mem p).poisoned ≡ true
      → Inv n w (record s {
        pc = update s.pc i idle;
        log = record { address = p; body = body; outcome = panic } ∷ s.log;
      })
  refuse-Inv i p body h e k g =
      let same = with_lock-refused p (finish [] body) (replay w s.log) (ground (arith, free p)) in
      record {
        few = λ j l. ground (arith, few j l);
        owner = λ j q b xs fs l. ground (arith, owner j q b xs fs);
        held = λ j q l. let (b, xs, fs, at) = held j q l in (b, xs, fs, ground arith);
        free = λ q l. free q l ∙ ap (λ r. r.1 q) (sym same);
        sound = λ j q b xs fs l. rw (replay, same) (sound j q b xs fs (ground arith));
        agrees = (ap (λ r. r.0) same, agrees);
      }

  advance-Inv :
      (i p : ℕ) (body : Body T X) (xs : List X) (f : T → Outcome X × T) (fs : Body T X) (x : X)
      (t : T)
      → i < n
      → s.pc i ≡ inside p body xs (f ∷ fs)
      → f (s.mem p).inner ≡ (done x, t)
      → Inv n w (record s {
        mem = store s.mem p (record { poisoned = (s.mem p).poisoned; inner = t });
        pc = update s.pc i (inside p body (xs ++ x ∷ []) fs);
      })
  unfolding finish
  advance-Inv i p body xs f fs x t h e r =
      let mine = owner i p body xs (f ∷ fs) e in
      let so_far = sound i p body xs (f ∷ fs) e in
      record {
        few = λ j l. ground (arith, few j l);
        owner = λ j q b ys gs l. ground (arith, owner j q b ys gs);
        held = λ j q l.
            let (b, ys, gs, at) = held j q l in
            elim (Bool-cases (j == i)) [
              | inl here ↦ (body, xs ++ x ∷ [], fs, ground arith)
              | inr there ↦ (b, ys, gs, ground arith)
            ];
        free = λ q l. ground (arith, free q l);
        sound = λ j q b ys gs l. ground (arith, sound j q b ys gs, owner j q b ys gs);
        agrees = agrees;
      }

  -- A call that ends, with what it leaves in the mutex.
  ends-Inv :
      (i p : ℕ) (body : Body T X) (xs : List X) (fs : Body T X) (r : Outcome (List X)) (t : T)
      → i < n
      → s.pc i ≡ inside p body xs fs
      → finish xs fs (s.mem p).inner ≡ (r, t)
      → Inv n w (record {
        mem = store s.mem p (record { poisoned = panicked r; inner = t });
        holder = update s.holder p none;
        pc = update s.pc i idle;
        log = record { address = p; body = body; outcome = r } ∷ s.log;
      })
  ends-Inv i p body xs fs r t h e f =
      let mine = owner i p body xs fs e in
      let (_, healthy, so_far) = sound i p body xs fs e in
      let (result, here) =
        with_lock-here p (finish [] body) (replay w s.log) r t healthy (sym so_far ∙ f) in
      let there : (q : ℕ)
          → q ≢ p
          → replay w (record { address = p; body = body; outcome = r } ∷ s.log) q
            ≡ replay w s.log q =
        λ q d. with_lock-there p q (finish [] body) (replay w s.log) d in
      record {
        few = λ j l. ground (arith, few j l);
        owner = λ j q b ys gs l. ground (arith, owner j q b ys gs);
        held = λ j q l. let (b, ys, gs, at) = held j q (ground arith) in (b, ys, gs, ground arith);
        free = λ q l. elim (Bool-cases (q == p)) [
          | inl at ↦ ground arith
          | inr at ↦ ground (arith, free q, there q)
        ];
        sound = λ j q b ys gs l. ground (arith, sound j q b ys gs, owner j q b ys gs, there q);
        agrees = (result, agrees);
      }

module _ {T X : Type 0} {n : ℕ} {w : World T} where
  pub Move-Inv : {s t : System T X} → Inv n w s → Move n s t → Inv n w t
  unfolding finish
  Move-Inv inv (refuse i p body h e k g) = refuse-Inv inv i p body h e k g
  Move-Inv inv (acquire i p body h e k g) = acquire-Inv inv i p body h e k g
  Move-Inv inv (advance i p body xs f fs x t h e r) = advance-Inv inv i p body xs f fs x t h e r
  Move-Inv inv (crash i p body xs f fs t h e r) =
      ends-Inv inv i p body xs (f ∷ fs) panic t h e (ground arith)
  Move-Inv {s} inv (release i p body xs h e) =
      let healthy = (inv.sound i p body xs [] e).0 in
      let same : store s.mem p (record { poisoned = false; inner = (s.mem p).inner }) ≡ s.mem =
        fun_ext λ q. ground arith in
      rw same at (ends-Inv inv i p body xs [] (done xs) (s.mem p).inner h e refl)

  pub Reach-Inv : {s : System T X} → Reach n w s → Inv n w s
  Reach-Inv start = start-Inv n w
  Reach-Inv (later r (calls i p body h e)) = calls-Inv (Reach-Inv r) i p body h e
  Reach-Inv (later r (moves m)) = Move-Inv (Reach-Inv r) m

  -- Threads that call methods behind mutexes, in any order, do what the same calls do one after the
  -- other: in the order in which they end, each call has the outcome that it has when it runs at
  -- once on what the calls before it leave, and each mutex that no thread has holds what all of
  -- them leave. Two threads are never inside calls on one mutex.
  pub threads_sequential :
      {s : System T X}
      → Reach n w s
      → Agrees w s.log
        × ((p : ℕ) → s.holder p ≡ none → s.mem p ≡ replay w s.log p)
        × ((i j p : ℕ) (b c : Body T X) (xs ys : List X) (fs gs : Body T X)
            → s.pc i ≡ inside p b xs fs
            → s.pc j ≡ inside p c ys gs
            → i ≡ j)
  threads_sequential r =
      let inv = Reach-Inv r in
      (
        inv.agrees,
        inv.free,
        λ i j p b c xs ys fs gs e f.
            ground (arith, inv.owner i p b xs fs e, inv.owner j p c ys gs f),
      )
