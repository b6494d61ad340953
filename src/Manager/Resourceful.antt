-- ===== src/Manager/Resourceful.antt =====
-- src/device_manager.rs: the methods of `IoManager` that take a list of resources.
use vm_device.Prelude.{
  ℕ, ◌+◌, List, [], ◌∷◌, Bool, true, false, Option, none, some, Outcome, done, panic, Result, ok,
  err, if◌then◌else◌,
}
use vm_device.Address.Mmio.{mmio_address}
use vm_device.Address.Pio.{pio_address}
use vm_device.Range
use vm_device.Resources.{Resource, pio_address_range, mmio_address_range}
use vm_device.Manager.{
  IoManager, Error, bus, pio_manager, mmio_manager, register_pio, register_mmio, deregister_pio,
  deregister_mmio,
}

abbrev pub is_some {ℓ} : {X : Type ℓ} → Option X → Bool
is_some none = false
is_some (some x) = true

module _ {P M : Type 0} where
  -- `Range.new(…).unwrap()` panics on an invalid range. What was registered before stays so.
  unfoldable pub register_mmio_resources :
      IoManager P M → M → List Resource → IoManager P M × Outcome (Result (Unit {0}) Error)
  register_mmio_resources t device [] = (t, done (ok tt))
  register_mmio_resources t device (mmio_address_range base size ∷ rs) =
      elim (Range.new ⦃o = mmio_address⦄ (record { offset = base }) size) [
        | err _ ↦ (t, panic)
        | ok range ↦
            let (t', x) = register_mmio mmio_manager t range device in
            elim x [
              | ok _ ↦ register_mmio_resources t' device rs
              | err e ↦ (t', done (err (bus e)))
            ]
      ]
  register_mmio_resources t device (_ ∷ rs) = register_mmio_resources t device rs

  unfoldable pub register_pio_resources :
      IoManager P M → P → List Resource → IoManager P M × Outcome (Result (Unit {0}) Error)
  register_pio_resources t device [] = (t, done (ok tt))
  register_pio_resources t device (pio_address_range base size ∷ rs) =
      elim (Range.new ⦃o = pio_address⦄ (record { offset = base }) size) [
        | err _ ↦ (t, panic)
        | ok range ↦
            let (t', x) = register_pio pio_manager t range device in
            elim x [ ok _ ↦ register_pio_resources t' device rs | err e ↦ (t', done (err (bus e))) ]
      ]
  register_pio_resources t device (_ ∷ rs) = register_pio_resources t device rs

  -- The device is an `Arc<T>`, which becomes a reference of either kind.
  unfoldable pub register_resources :
      {T : Type 0} (as_mmio : T → M) (as_pio : T → P)
      → IoManager P M
      → T
      → List Resource
      → IoManager P M × Outcome (Result (Unit {0}) Error)
  register_resources as_mmio as_pio t device rs =
      let (t', x) = register_mmio_resources t (as_mmio device) rs in
      elim x [
        | done (ok _) ↦ register_pio_resources t' (as_pio device) rs
        | done (err e) ↦ (t', done (err e))
        | panic ↦ (t', panic)
      ]

  -- The loop of `deregister_resources`, with its counter.
  unfoldable pub deregister_loop : IoManager P M → ℕ → List Resource → IoManager P M × ℕ
  deregister_loop t count [] = (t, count)
  deregister_loop t count (pio_address_range base _ ∷ rs) =
      let (t', removed) = deregister_pio pio_manager t (record { offset = base }) in
      deregister_loop t' (if is_some removed then count + 1 else count) rs
  deregister_loop t count (mmio_address_range base _ ∷ rs) =
      let (t', removed) = deregister_mmio mmio_manager t (record { offset = base }) in
      deregister_loop t' (if is_some removed then count + 1 else count) rs
  deregister_loop t count (_ ∷ rs) = deregister_loop t count rs

  unfoldable pub deregister_resources : IoManager P M → List Resource → IoManager P M × ℕ
  unfolding deregister_loop
  deregister_resources t rs = deregister_loop t 0 rs
