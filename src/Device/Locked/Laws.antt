-- ===== src/Device/Locked/Laws.antt =====
-- src/lib.rs: the two devices of the documentation, the one with a mutex inside and the mutable one
-- behind a mutex.
use mathlib.Core.Path.{fun_ext}
use vm_device.Prelude.{
  ◌*◌, ◌/◌, ◌%◌, ◌^◌, ℕ, suc, ◌≡◌, ◌∙◌, ap, sym, refl, List, [], ◌∷◌, Outcome, done, false,
  Bool-cases, inl, inr, ltb, length, arith, if◌then◌else◌,
}
use vm_device.Device.Mutex
use vm_device.Device.Mutex.{Mutex, World, Guarded, store, panicked, with_lock}
use vm_device.Device.Mutex.Laws.{with_lock_free}
use vm_device.Device.Dummy
use vm_device.Device.Dummy.{dummy_device}
use vm_device.Device.Locked.{DummyDevice, fill, set_word, read, write}

-- The words of the mutable devices that mutexes hold.
abbrev pub words : World Dummy.DummyDevice → World ℕ
words w q = record { poisoned = (w q).poisoned; inner = (w q).inner.config }

store_same :
    {T : Type 0} (w : World T) (p : ℕ)
    → (w p).poisoned ≡ false
    → store w p (record { poisoned = false; inner = (w p).inner }) ≡ w
store_same w p h = fun_ext λ q. ground arith

words-store :
    (w : World Dummy.DummyDevice) (p : ℕ) (g : Guarded Dummy.DummyDevice)
    → words (store w p g)
      ≡ store (words w) p (record { poisoned = g.poisoned; inner = g.inner.config })
words-store w p g = fun_ext λ q. ground arith

-- A call that only looks at the value changes nothing.
look :
    {T X : Type 0} (m : Mutex T) (g : T → X) (w : World T)
    → (w m.address).poisoned ≡ false
    → with_lock m (λ t. (done (g t), t)) w ≡ (done (g (w m.address).inner), w)
look m g w h =
    with_lock_free m (λ t. (done (g t), t)) w h
    ∙ ap (λ v. (done (g (w m.address).inner), v)) (store_same w m.address h)

-- On a mutex that is not poisoned, the loop reads the bytes of the word and changes nothing.
fill_free :
    (m : Mutex ℕ) (idx : ℕ) (buffer : List ℕ) (w : World ℕ)
    → (w m.address).poisoned ≡ false
    → fill m idx buffer w ≡ (done (Dummy.fill (w m.address).inner idx buffer), w)
unfolding fill Dummy.fill
fill_free m idx [] w h = refl
fill_free m idx (b ∷ rest) w h =
    ground (arith, look m (λ word. word / 2 ^ (idx * 8) % 256) w h, fill_free m (suc idx) rest w h)

module _ {A : Type 0} (d : DummyDevice) (base : A) (offset : ℕ) where
  abbrev mutex : Mutex Dummy.DummyDevice
  mutex = record { address = d.config.address }

  -- A call that acts on the word of the device alone.
  lock-words :
      (f : Dummy.DummyDevice → Outcome (Unit {0}) × Dummy.DummyDevice)
      (g : ℕ → Outcome (Unit {0}) × ℕ) (w : World Dummy.DummyDevice)
      → (w d.config.address).poisoned ≡ false
      → let (x, t) = f (w d.config.address).inner in
        g (w d.config.address).inner.config ≡ (x, t.config)
        → let (y, w') = with_lock mutex f w in with_lock d.config g (words w) ≡ (y, words w')
  lock-words f g w h e =
      let (x, t) = f (w d.config.address).inner in
      let after : Guarded Dummy.DummyDevice = record { poisoned = panicked x; inner = t } in
      with_lock_free d.config g (words w) h
      ∙ ap
          (λ r. (
            r.0,
            store (words w) d.config.address (record { poisoned = panicked r.0; inner = r.1 }),
          ))
          e
      ∙ ap (λ v. (x, v)) (sym (words-store w d.config.address after))
      ∙ sym (ap (λ r. (r.0, words r.1)) (with_lock_free mutex f w h))

  Mutex_read-look :
      (buffer : List ℕ) (w : World Dummy.DummyDevice)
      → (w d.config.address).poisoned ≡ false
      → Mutex.read mutex base offset buffer w ≡ (
        done (
            if ltb 4 (length buffer)
            then buffer
            else Dummy.fill (w d.config.address).inner.config 0 buffer),
        w,
      )
  unfolding Mutex.read dummy_device Dummy.read
  Mutex_read-look buffer w h = elim (Bool-cases (ltb 4 (length buffer))) [
    | inl long ↦ rw long (look mutex (λ t. buffer) w h)
    | inr short ↦ rw short (look mutex (λ t. Dummy.fill t.config 0 buffer) w h)
  ]

  read-Mutex :
      (buffer : List ℕ) (w : World Dummy.DummyDevice)
      → (w d.config.address).poisoned ≡ false
      → let (x, w') = Mutex.read mutex base offset buffer w in
        read d base offset buffer (words w) ≡ (x, words w')
  unfolding read
  read-Mutex buffer w h =
      rw (Mutex_read-look buffer w h, fill_free d.config 0 buffer (words w) h) (ground arith)

  write-Mutex :
      (buffer : List ℕ) (w : World Dummy.DummyDevice)
      → (w d.config.address).poisoned ≡ false
      → let (x, w') = Mutex.write mutex base offset buffer w in
        write d base offset buffer (words w) ≡ (x, words w')
  unfolding write Mutex.write dummy_device Dummy.write set_word
  write-Mutex [] w h = lock-words (λ t. Dummy.write t base offset []) (set_word []) w h refl
  write-Mutex (byte ∷ rest) w h =
      lock-words (λ t. Dummy.write t base offset (byte ∷ rest)) (set_word (byte ∷ rest)) w h refl

  -- Behind a mutex that is not poisoned, the two devices of the documentation cannot be told apart
  -- by one thread: the device that locks its word for each byte, and the mutable device that a
  -- mutex locks for the whole call, give the same results of a read and of a write, panics
  -- included, and leave the same words behind.
  pub accesses-Mutex :
      (buffer : List ℕ) (w : World Dummy.DummyDevice)
      → (w d.config.address).poisoned ≡ false
      → let (x, after_read) = Mutex.read mutex base offset buffer w in
        let (y, after_write) = Mutex.write mutex base offset buffer w in
        (read d base offset buffer (words w) ≡ (x, words after_read))
        × (write d base offset buffer (words w) ≡ (y, words after_write))
  accesses-Mutex buffer w h = (read-Mutex buffer w h, write-Mutex buffer w h)
