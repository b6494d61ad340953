-- ===== src/Threads/Progress.antt =====
-- src/lib.rs: the moves that are left to threads that call methods behind mutexes.
use vm_device.Prelude.{
  ◌⊎◌, ℕ, zero, suc, ◌+◌, ◌≤◌, ◌<◌, ◌≡◌, ◌↔◌, ◌≢◌, ◌==◌, refl, List, [], ◌∷◌, ◌++◌, arith, none,
  Bool-cases, Option-cases, Outcome-cases, inl, inr, length,
}
use vm_device.Device.Mutex.{World}
use vm_device.Threads.{
  Body, Pc, idle, waiting, inside, System, update, Move, refuse, acquire, advance, crash, release,
  moves, Reach, later,
}
use vm_device.Threads.Sequential.{Reach-Inv}

-- The steps that a thread has still to make, the lock and the unlock included.
abbrev pub work : {T X : Type 0} → Pc T X → ℕ
work idle = 0
work (waiting p body) = length body + 2
work (inside p body xs fs) = length fs + 1

unfoldable pub total : {T X : Type 0} → ℕ → (ℕ → Pc T X) → ℕ
total zero pc = 0
total (suc n) pc = total n pc + work (pc n)

module _ {T X : Type 0} where
  total-update_of_le :
      (n : ℕ) (pc : ℕ → Pc T X) (i : ℕ) (c : Pc T X) → n ≤ i → total n (update pc i c) ≡ total n pc
  unfolding total
  total-update_of_le zero pc i c h = refl
  total-update_of_le (suc n) pc i c h = ground (arith, total-update_of_le n pc i c)

  total-update :
      (n : ℕ) (pc : ℕ → Pc T X) (i : ℕ) (c : Pc T X)
      → i < n
      → total n (update pc i c) + work (pc i) ≡ total n pc + work c
  unfolding total
  total-update zero pc i c h = absurd (omega arith)
  total-update (suc n) pc i c h = elim (Bool-cases (n == i)) [
    | inl last ↦ ground (arith, total-update_of_le n pc i c)
    | inr below ↦ ground (arith, total-update n pc i c)
  ]

  -- Each step inside a call leaves less work.
  Move-total : {n : ℕ} {s t : System T X} → Move n s t → total n t.pc < total n s.pc
  Move-total {n} {s} (refuse i p body h e k g) = ground (arith, total-update n s.pc i idle h)
  Move-total {n} {s} (acquire i p body h e k g) =
      ground (arith, total-update n s.pc i (inside p body [] body) h)
  Move-total {n} {s} (advance i p body xs f fs x t h e r) =
      ground (arith, total-update n s.pc i (inside p body (xs ++ x ∷ []) fs) h)
  Move-total {n} {s} (crash i p body xs f fs t h e r) = ground (arith, total-update n s.pc i idle h)
  Move-total {n} {s} (release i p body xs h e) = ground (arith, total-update n s.pc i idle h)

  -- A number of steps inside calls, one after the other.
  pub data Moves (n : ℕ) (s : System T X) : ℕ → System T X → Type 0 where
    here : Moves n s 0 s
    next : {k : ℕ} {t u : System T X} → Moves n s k t → Move n t u → Moves n s (suc k) u

  -- There are at most as many steps inside calls as the calls that have begun have left.
  Moves-total : (n : ℕ) {s t : System T X} (k : ℕ) → Moves n s k t → k + total n t.pc ≤ total n s.pc
  Moves-total n zero here = omega arith
  Moves-total n {s = s} {t = t} (suc k) (next {t = u} m step) =
      omega (arith, Moves-total n {s = s} {t = u} k m, Move-total step)

  Moves-Reach :
      {n : ℕ} {w : World T} {s t : System T X} {k : ℕ} → Reach n w s → Moves n s k t → Reach n w t
  Moves-Reach r here = r
  Moves-Reach r (next m step) = later (Moves-Reach r m) (moves step)

  Pc-cases :
      (c : Pc T X)
      → (c ≡ idle)
        ⊎ ((p : ℕ) × (body : Body T X) × (c ≡ waiting p body))
        ⊎ ((p : ℕ) × (body : Body T X) × (xs : List X) × (fs : Body T X) × (c
              ≡ inside p body xs fs))
  Pc-cases idle = inl refl
  Pc-cases (waiting p body) = inr (inl (p, body, refl))
  Pc-cases (inside p body xs fs) = inr (inr (p, body, xs, fs, refl))

  -- A thread that has a guard can make a step.
  inside-Move :
      {n : ℕ} {s : System T X} (i p : ℕ) (body : Body T X) (xs : List X) (fs : Body T X)
      → i < n
      → s.pc i ≡ inside p body xs fs
      → (t : System T X) × Move n s t
  inside-Move i p body xs [] h e = (_, release i p body xs h e)
  inside-Move {s} i p body xs (f ∷ fs) h e = elim (Outcome-cases (f (s.mem p).inner).0) [
    | inl r ↦ (_, crash i p body xs f fs (f (s.mem p).inner).1 h e (ground arith))
    | inr (x, r) ↦ (_, advance i p body xs f fs x (f (s.mem p).inner).1 h e (ground arith))
  ]

  -- There is no deadlock: as long as some thread is in a call, waiting for a lock or with a guard,
  -- some thread can make a step inside its call.
  pub progress :
      {n : ℕ} {w : World T} {s : System T X}
      → Reach n w s
      → (i : ℕ) → s.pc i ≢ idle
      → (t : System T X) × Move n s t
  progress {n} {w} {s} r i busy =
      let inv = Reach-Inv r in
      let below : (j : ℕ) → s.pc j ≢ idle → j < n = λ j h. ground (arith, inv.few j) in
      elim (Pc-cases (s.pc i)) [
        | inl e ↦ absurd (busy e)
        | inr (inr (p, body, xs, fs, e)) ↦ inside-Move i p body xs fs (below i busy) e
        | inr (inl (p, body, e)) ↦ elim (Option-cases (s.holder p)) [
          | inr (j, h) ↦
              let (b, xs, fs, at) = inv.held j p h in inside-Move j p b xs fs (below j (λ e. cc)) at
          | inl h ↦ elim (Bool-cases (s.mem p).poisoned) [
            | inl g ↦ (_, refuse i p body (below i busy) e h g)
            | inr g ↦ (_, acquire i p body (below i busy) e h g)
          ]
        ]
      ]

  -- The first `n` threads are in no call, or one of them is in a call.
  search_busy :
      (n : ℕ) (pc : ℕ → Pc T X) → ((i : ℕ) → i < n → pc i ≡ idle) ⊎ ((i : ℕ) × (pc i ≢ idle))
  search_busy zero pc = inl λ i h. absurd (omega arith)
  search_busy (suc n) pc = elim (Pc-cases (pc n)) [
    | inl e ↦ elim (search_busy n pc) [
      | inl all ↦ inl λ i h. ground (arith, all i)
      | inr busy ↦ inr busy
    ]
    | inr (inl (p, body, e)) ↦ inr (n, λ q. cc)
    | inr (inr (p, body, xs, fs, e)) ↦ inr (n, λ q. cc)
  ]

  -- A mutex is held only by a thread in a call.
  free_of_idle :
      {n : ℕ} {w : World T} {s : System T X}
      → Reach n w s
      → ((i : ℕ) → s.pc i ≡ idle)
      → (p : ℕ) → s.holder p ≡ none
  free_of_idle {s = s} r rest p = elim (Option-cases (s.holder p)) [
    | inl e ↦ e
    | inr (j, e) ↦ let (b, xs, fs, at) = (Reach-Inv r).held j p e in absurd (ground (arith, rest j))
  ]

  -- A thread in no call makes no step inside one.
  no_Move_of_idle : {n : ℕ} {s u : System T X} → ((i : ℕ) → s.pc i ≡ idle) → ¬ Move n s u
  no_Move_of_idle rest (refuse i p body h e k g) = absurd (ground (arith, rest i))
  no_Move_of_idle rest (acquire i p body h e k g) = absurd (ground (arith, rest i))
  no_Move_of_idle rest (advance i p body xs f fs x t h e r) = absurd (ground (arith, rest i))
  no_Move_of_idle rest (crash i p body xs f fs t h e r) = absurd (ground (arith, rest i))
  no_Move_of_idle rest (release i p body xs h e) = absurd (ground (arith, rest i))

  -- From a state that threads can reach, the steps inside calls come to an end, however the threads
  -- take turns: there are at most as many as the calls that have begun have left; and they can go
  -- on until every thread has ended its call and every mutex is free, and no longer.
  pub Moves-ends :
      {n : ℕ} {w : World T} {s t : System T X} (k : ℕ)
      → Reach n w s
      → Moves n s k t
      → (k + total n t.pc ≤ total n s.pc)
        × (((u : System T X) → ¬ Move n t u)
            ↔ (((i : ℕ) → t.pc i ≡ idle) × ((p : ℕ) → t.holder p ≡ none)))
  Moves-ends {n} {w} {s} {t} k r m =
      let reach = Moves-Reach r m in
      let all_idle : ((u : System T X) → ¬ Move n t u) → (i : ℕ) → t.pc i ≡ idle = λ stuck i.
        elim (Pc-cases (t.pc i)) [
          | inl e ↦ e
          | inr (inl (p, body, e)) ↦
              let (u, step) = progress reach i (λ q. cc) in absurd (stuck u step)
          | inr (inr (p, body, xs, fs, e)) ↦
              let (u, step) = progress reach i (λ q. cc) in absurd (stuck u step)
        ] in
      (
        Moves-total n k m,
        (
          λ stuck. (all_idle stuck, free_of_idle reach (all_idle stuck)),
          λ rest u. no_Move_of_idle rest.0,
        ),
      )

  settle :
      {n : ℕ} {w : World T} {s : System T X} (fuel k : ℕ) (t : System T X)
      → Reach n w t
      → Moves n s k t
      → total n t.pc < fuel
      → (j : ℕ) × (u : System T X) × Moves n s j u × Reach n w u × ((i : ℕ) → u.pc i ≡ idle)
  settle zero k t r m h = absurd (omega arith)
  settle {n} (suc fuel) k t r m h = elim (search_busy n t.pc) [
    | inl all ↦ (k, t, m, r, λ i. ground (arith, all i, (Reach-Inv r).few i))
    | inr (i, busy) ↦
        let (u, step) = progress r i busy in
        settle fuel (suc k) u (later r (moves step)) (next m step) (omega (arith, Move-total step))
  ]

  -- From every state that threads can reach, steps inside the calls that have begun lead to a state
  -- in which no thread is in a call and no mutex is held.
  pub settles :
      {n : ℕ} {w : World T} {s : System T X}
      → Reach n w s
      → (k : ℕ) × (t : System T X) × Moves n s k t
        × ((i : ℕ) → t.pc i ≡ idle)
        × ((p : ℕ) → t.holder p ≡ none)
  settles {n} {s} r =
      let (k, t, m, reach, rest) = settle (suc (total n s.pc)) 0 s r here (omega arith) in
      (k, t, m, rest, free_of_idle reach rest)
