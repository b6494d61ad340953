-- ===== src/Manager/Concurrent/Calls.antt =====
-- src/device_manager.rs and src/lib.rs: an access through a manager as a call on a mutex.
use vm_device.Prelude.{
  ℕ, ◌≡◌, ◌∙◌, ap, refl, List, [], ◌∷◌, Outcome, done, panic, Result, ok, err, length,
  Outcome-cases, Bool-cases, inl, inr,
}
use vm_device.Address.Mmio.{MmioAddress, mmio_address}
use vm_device.Address.Mmio
use vm_device.Address.Pio.{PioAddress, pio_address}
use vm_device.Address.Pio
use vm_device.Range.{BusRange}
use vm_device.Bus.{check_access}
use vm_device.Bus.Errors
use vm_device.Device.{MutDevicePio, MutDeviceMmio}
use vm_device.Device.Arc.{Arc, arc_device}
use vm_device.Device.Mutex.{Mutex, World, mutex_device, with_lock}
use vm_device.Manager.{
  IoManager, bus_read, bus_write, pio_read, pio_write, mmio_read, mmio_write, pio_manager,
  mmio_manager, and_then_call,
}
use vm_device.Threads.{finish, Entry}
use vm_device.Threads.Invariant.{Agrees, replay}
use vm_device.Manager.Concurrent.{
  Access, Answer, reads_pio, writes_pio, reads_mmio, writes_mmio, bytes, written, answered, on_ok,
  located, answer_of, io_access, find_call, after, InTurn, Begun,
}

with_lock-answered {ℓ κ} :
    {T : Type 0} {X : Type ℓ} {Y : Type κ} (m : Mutex T) (f : T → Outcome X × T)
    (g : T → Outcome Y × T) (c : X → Y) (w : World T)
    → g (w m.address).inner ≡ answered c (f (w m.address).inner)
    → with_lock m g w ≡ answered c (with_lock m f w)
unfolding with_lock
with_lock-answered m f g c w h = elim (Bool-cases (w m.address).poisoned) [
  | inl e ↦ rw e refl
  | inr e ↦ elim (Outcome-cases (f (w m.address).inner).0) [
    | inl p ↦ rw (e, h, p) refl
    | inr (x, p) ↦ rw (e, h, p) refl
  ]
]

answer_of_lem {ℓ} :
    {X : Type ℓ} (c : X → Answer) (r : Outcome X)
    → (answered (λ x. ok x) (answered c (r, tt))).0 ≡ answer_of c r
answer_of_lem c (done x) = refl
answer_of_lem c panic = refl

-- An access as a call that was found, or as an error.
abbrev at_call :
    {T : Type 0}
    → Result (ℕ × (T → Outcome Answer × T)) Errors.Error
    → World T
    → Outcome (Result Answer Errors.Error) × World T
at_call (err e) w = (done (err e), w)
at_call (ok (p, f)) w = answered ok (with_lock (record { address = p }) f w)

answered-located {ℓ} :
    {A T : Type 0} {X : Type ℓ} (c : X → Answer) (f : BusRange A → T → Outcome X × T)
    (x : Result (BusRange A × Arc (Mutex T)) Errors.Error) (w : World T)
    → answered (on_ok c) (and_then_call x (λ r d. with_lock d.pointee (f r)) w)
      ≡ at_call (located c f x) w
answered-located c f (err e) w = refl
answered-located c f (ok (r, d)) w =
    rw (with_lock-answered d.pointee (f r) (λ x. answered c (f r x)) c w refl)
      (elim (Outcome-cases (with_lock d.pointee (f r) w).0) [
        | inl p ↦ rw p refl
        | inr (x, p) ↦ rw p refl
      ])

module _ {T : Type 0} ⦃pio : MutDevicePio T⦄ ⦃mmio : MutDeviceMmio T⦄
    (t : IoManager (Arc (Mutex T)) (Arc (Mutex T))) where
  io_access-find_call : (a : Access) (w : World T) → io_access t a w ≡ at_call (find_call t a) w
  unfolding io_access find_call pio_read pio_write mmio_read mmio_write bus_read bus_write
      pio_manager mmio_manager arc_device mutex_device pio_address mmio_address
  io_access-find_call (reads_pio addr buffer) w =
      answered-located bytes (λ r x. pio.read x r.base (Pio.sub addr r.base) buffer)
        (check_access ⦃o = pio_address⦄ t.pio_bus addr (length buffer)) w
  io_access-find_call (writes_pio addr data') w =
      answered-located written (λ r x. pio.write x r.base (Pio.sub addr r.base) data')
        (check_access ⦃o = pio_address⦄ t.pio_bus addr (length data')) w
  io_access-find_call (reads_mmio addr buffer) w =
      answered-located bytes (λ r x. mmio.read x r.base (Mmio.sub addr r.base) buffer)
        (check_access ⦃o = mmio_address⦄ t.mmio_bus addr (length buffer)) w
  io_access-find_call (writes_mmio addr data') w =
      answered-located written (λ r x. mmio.write x r.base (Mmio.sub addr r.base) data')
        (check_access ⦃o = mmio_address⦄ t.mmio_bus addr (length data')) w

  -- The accesses that have ended, with what they give, against the calls on mutexes that have. An
  -- access that finds no device makes no call.
  pub data Performs {X : Type 0}
      : List (Access × Outcome (Result Answer Errors.Error)) → List (Entry T X) → Type 0 where
    nothing : Performs [] []
    refused :
        {rs : List (Access × Outcome (Result Answer Errors.Error))} {es : List (Entry T X)}
        (a : Access) (e : Errors.Error)
        → find_call t a ≡ err e
        → Performs rs es
        → Performs ((a, done (err e)) ∷ rs) es
    called :
        {rs : List (Access × Outcome (Result Answer Errors.Error))} {es : List (Entry T X)}
        (b : Begun t X) (r : Outcome (List X))
        → Performs rs es
        → Performs
            ((b.access, answer_of b.collect r) ∷ rs)
            (record { address = b.address; body = b.body; outcome = r } ∷ es)

  pub Performs-InTurn :
      {X : Type 0} {rs : List (Access × Outcome (Result Answer Errors.Error))}
      {es : List (Entry T X)} (w : World T)
      → Performs rs es
      → Agrees w es
      → InTurn t w rs × (after t w rs ≡ replay w es)
  Performs-InTurn w nothing g = (tt, refl)
  Performs-InTurn w (refused {rs} a e h rest) g =
      let (turn, same) = Performs-InTurn w rest g in
      let here : io_access t a (after t w rs) ≡ (done (err e), after t w rs) =
        io_access-find_call a (after t w rs) ∙ rw h refl in
      ((ap (λ q. q.0) here, turn), ap (λ q. q.1) here ∙ same)
  Performs-InTurn w (called {rs} {es} b r rest) (g, gs) =
      let (turn, same) = Performs-InTurn w rest gs in
      let ran = with_lock (record { address = b.address }) (finish [] b.body) (replay w es) in
      let here : io_access t b.access (after t w rs) ≡ answered ok (answered b.collect ran) =
        io_access-find_call b.access (after t w rs)
        ∙ rw (b.finds, same)
            (ap (answered ok) (
              with_lock-answered (record { address = b.address }) (finish [] b.body) b.method
                b.collect (replay w es) (b.splits (replay w es b.address).inner))) in
      (
        (ap (λ q. q.0) here ∙ answer_of_lem b.collect ran.0 ∙ ap (answer_of b.collect) g, turn),
        ap (λ q. q.1) here,
      )
