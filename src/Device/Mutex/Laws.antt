-- ===== src/Device/Mutex/Laws.antt =====
-- src/lib.rs: what a sequence of calls on one mutex does to it and to the others.
use vm_device.Prelude.{
  ℕ, ◌≡◌, ◌≢◌, refl, List, [], ◌∷◌, map, arith, Outcome, done, panic, Bool, true, false, ◌∙◌, inl,
  inr, Outcome-cases, ap,
}
use vm_device.Device.Mutex.{Mutex, World, Guarded, store, panicked, with_lock}

module _ {T : Type 0} where
  pub store_here : (w : World T) (p : ℕ) (g : Guarded T) → store w p g p ≡ g
  store_here w p g = ground arith

  pub store_there : (w : World T) (p q : ℕ) (g : Guarded T) → q ≢ p → store w p g q ≡ w q
  store_there w p q g h = ground arith

module _ {T X : Type 0} where
  -- Calls on the mutex, one after the other. A caller that panics does not stop the others.
  unfoldable pub lock_each :
      Mutex T → List (T → Outcome X × T) → World T → List (Outcome X) × World T
  lock_each m [] w = ([], w)
  lock_each m (f ∷ fs) w =
      let (x, w') = with_lock m f w in let (xs, w'') = lock_each m fs w' in (x ∷ xs, w'')

  -- The calls on the value alone, up to the first that panics; each later one panics untried. Also
  -- whether there was a panic, and the value at the end.
  unfoldable pub direct : List (T → Outcome X × T) → T → List (Outcome X) × Bool × T
  direct [] t = ([], false, t)
  direct (f ∷ fs) t =
      let (x, t') = f t in
      let (xs, failed, end) = direct fs t' in
      elim x [
        | panic ↦ (panic ∷ map (λ _. panic) fs, true, t')
        | done y ↦ (done y ∷ xs, failed, end)
      ]

  pub with_lock_free :
      (m : Mutex T) (f : T → Outcome X × T) (w : World T)
      → (w m.address).poisoned ≡ false
      → let (x, t) = f (w m.address).inner in
        with_lock m f w ≡ (x, store w m.address (record { poisoned = panicked x; inner = t }))
  unfolding with_lock
  with_lock_free m f w p = rw p refl

  -- After a panic nothing changes any more.
  lock_each-poisoned :
      (m : Mutex T) (fs : List (T → Outcome X × T)) (w : World T)
      → (w m.address).poisoned ≡ true
      → lock_each m fs w ≡ (map (λ _. panic) fs, w)
  unfolding lock_each with_lock
  lock_each-poisoned m [] w p = refl
  lock_each-poisoned m (f ∷ fs) w p = rw (p, lock_each-poisoned m fs w p) refl

  -- A sequence of calls on a mutex that is not poisoned gives what the calls on the value alone
  -- give, up to the first that panics; each later call panics and changes nothing. The mutex holds
  -- the value at the end and is poisoned exactly if a call has panicked, and every other mutex
  -- holds what it held.
  pub lock_each-direct :
      (m : Mutex T) (fs : List (T → Outcome X × T)) (w : World T)
      → (w m.address).poisoned ≡ false
      → let (xs, w') = lock_each m fs w in
        let (ys, failed, end) = direct fs (w m.address).inner in
        (xs ≡ ys)
        × (w' m.address ≡ record { poisoned = failed; inner = end })
        × ((q : ℕ) → q ≢ m.address → w' q ≡ w q)
  unfolding lock_each with_lock direct
  lock_each-direct m [] w p = (refl, ground arith, λ q h. refl)
  lock_each-direct m (f ∷ fs) w p =
      let t = (f (w m.address).inner).1 in
      elim (Outcome-cases (f (w m.address).inner).0) [
        | inl e ↦
            let w' = store w m.address (record { poisoned = true; inner = t }) in
            let here = store_here w m.address (record { poisoned = true; inner = t }) in
            let rest = lock_each-poisoned m fs w' (rw here refl) in
            rw (with_lock_free m f w p, direct, e, rest)
              (refl, here, λ q h. store_there w m.address q _ h)
        | inr (y, e) ↦
            let w' = store w m.address (record { poisoned = false; inner = t }) in
            let here = store_here w m.address (record { poisoned = false; inner = t }) in
            let (xs, at_end, others) = lock_each-direct m fs w' (rw here refl) in
            rw (with_lock_free m f w p, direct, e)
              (
                ap (λ l. done y ∷ l) (rw here at xs),
                rw here at at_end,
                λ q h. others q h ∙ store_there w m.address q _ h,
              )
      ]
