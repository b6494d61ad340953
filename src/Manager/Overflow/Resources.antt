-- ===== src/Manager/Overflow/Resources.antt =====
-- src/device_manager.rs: the methods of `IoManager` on lists of resources, in a build with overflow
-- checks.
use vm_device.Prelude.{
  ℕ, Bool, ◌+◌, ◌<◌, ◌^◌, ◌≡◌, refl, List, [], ◌∷◌, Outcome, done, panic, Result, ok, err, length,
  if◌then◌else◌, ltb, arith, Result-cases, ending, inl, inr,
}
use vm_device.Prelude.Panic.{◌>>=◌}
use vm_device.Address.Mmio.{MmioAddress, mmio_address}
use vm_device.Address.Pio.{PioAddress, pio_address}
use vm_device.Range.{BusRange}
use mathlib.Core.List.{filter_map}
use vm_device.Range.Overflow.{new, new-done}
use vm_device.Bus
use vm_device.Bus.Overflow.{register, deregister, register-done, deregister-done}
use vm_device.Bus.Register.{register-IsValid}
use vm_device.Bus.History.{step, step-Spec, deregisters}
use vm_device.Resources.{Resource, pio_address_range, mmio_address_range}
use vm_device.Manager
use vm_device.Manager.{IoManager, Error, bus, pio_manager, mmio_manager}
use vm_device.Manager.Resourceful
use vm_device.Manager.Resourceful.{is_some}
use vm_device.Manager.Registration.{IsSized, new_cases}
use vm_device.Manager.Ranges.{pio_ranges, mmio_ranges}
use vm_device.Manager.Outcomes.{IsValidManager, IsSizedResources, register_mmio_resources-Ends}

-- `count += 1` on a `usize` of 64 bits.
abbrev add_one : ℕ → Outcome ℕ
add_one n = if ltb (n + 1) (2 ^ 64) then done (n + 1) else panic

count_one :
    (b : Bool) (n : ℕ)
    → n + 1 < 2 ^ 64
    → (if b then add_one n else done n) ≡ done (if b then n + 1 else n)
count_one b n h = ground arith

module _ {P M : Type 0} where
  unfoldable pub register_mmio_resources :
      IoManager P M → M → List Resource → IoManager P M × Outcome (Result (Unit {0}) Error)
  register_mmio_resources t device [] = (t, done (ok tt))
  register_mmio_resources t device (mmio_address_range base size ∷ rs) =
      elim (new ⦃o = mmio_address⦄ (record { offset = base }) size) [
        | panic ↦ (t, panic)
        | done (err _) ↦ (t, panic)
        | done (ok range) ↦ elim (register ⦃o = mmio_address⦄ t.mmio_bus range device) [
          | panic ↦ (t, panic)
          | done (b, ok _) ↦ register_mmio_resources (record t { mmio_bus = b }) device rs
          | done (b, err e) ↦ (record t { mmio_bus = b }, done (err (bus e)))
        ]
      ]
  register_mmio_resources t device (_ ∷ rs) = register_mmio_resources t device rs

  unfoldable pub register_pio_resources :
      IoManager P M → P → List Resource → IoManager P M × Outcome (Result (Unit {0}) Error)
  register_pio_resources t device [] = (t, done (ok tt))
  register_pio_resources t device (pio_address_range base size ∷ rs) =
      elim (new ⦃o = pio_address⦄ (record { offset = base }) size) [
        | panic ↦ (t, panic)
        | done (err _) ↦ (t, panic)
        | done (ok range) ↦ elim (register ⦃o = pio_address⦄ t.pio_bus range device) [
          | panic ↦ (t, panic)
          | done (b, ok _) ↦ register_pio_resources (record t { pio_bus = b }) device rs
          | done (b, err e) ↦ (record t { pio_bus = b }, done (err (bus e)))
        ]
      ]
  register_pio_resources t device (_ ∷ rs) = register_pio_resources t device rs

  unfoldable pub register_resources :
      {T : Type 0} (as_mmio : T → M) (as_pio : T → P)
      → IoManager P M
      → T
      → List Resource
      → IoManager P M × Outcome (Result (Unit {0}) Error)
  unfolding register_mmio_resources register_pio_resources
  register_resources as_mmio as_pio t device rs =
      let (t', x) = register_mmio_resources t (as_mmio device) rs in
      elim x [
        | done (ok _) ↦ register_pio_resources t' (as_pio device) rs
        | done (err e) ↦ (t', done (err e))
        | panic ↦ (t', panic)
      ]

  unfoldable pub deregister_loop : IoManager P M → ℕ → List Resource → Outcome (IoManager P M × ℕ)
  deregister_loop t count [] = done (t, count)
  deregister_loop t count (pio_address_range base _ ∷ rs) = do
    (b, removed) ← deregister ⦃o = pio_address⦄ t.pio_bus (record { offset = base })
    count' ← if is_some removed then add_one count else done count
    deregister_loop (record t { pio_bus = b }) count' rs
  deregister_loop t count (mmio_address_range base _ ∷ rs) = do
    (b, removed) ← deregister ⦃o = mmio_address⦄ t.mmio_bus (record { offset = base })
    count' ← if is_some removed then add_one count else done count
    deregister_loop (record t { mmio_bus = b }) count' rs
  deregister_loop t count (_ ∷ rs) = deregister_loop t count rs

  pub register_mmio_same :
      (t : IoManager P M) (d : M) (rs : List Resource)
      → IsValidManager t
      → IsSized ⦃o = mmio_address⦄ (mmio_ranges rs)
      → register_mmio_resources t d rs ≡ Resourceful.register_mmio_resources t d rs
  unfolding register_mmio_resources Resourceful.register_mmio_resources Manager.register_mmio
      mmio_manager filter_map
  register_mmio_same t d [] v h = refl
  register_mmio_same t d (mmio_address_range base size ∷ rs) v (h, hs) =
      let made = new-done ⦃o = mmio_address⦄ (record { offset = base }) size h in
      elim (new_cases ⦃o = mmio_address⦄ (record { offset = base }) size h) [
        | inl (bad, e) ↦
            rw (register_mmio_resources, Resourceful.register_mmio_resources, made, e) refl
        | inr (good, e) ↦
            let range : BusRange MmioAddress = record {
              base = record { offset = base };
              size = size;
            } in
            let entered = register-done ⦃o = mmio_address⦄ t.mmio_bus range d v.mmio good in
            let kept = register-IsValid ⦃o = mmio_address⦄ t.mmio_bus range d v.mmio good in
            rw (register_mmio_resources, Resourceful.register_mmio_resources, made, e, entered)
              (elim (Result-cases (Bus.register ⦃o = mmio_address⦄ t.mmio_bus range d).1) [
                | inr (x, taken) ↦ rw taken refl
                | inl (u, free) ↦ rw free (
                    register_mmio_same
                      (record t {
                        mmio_bus = (Bus.register ⦃o = mmio_address⦄ t.mmio_bus range d).0;
                      })
                      d rs (record { pio = v.pio; mmio = kept }) hs)
              ])
      ]
  register_mmio_same t d (_ ∷ rs) v h = register_mmio_same t d rs v h

  pub register_pio_same :
      (t : IoManager P M) (d : P) (rs : List Resource)
      → IsValidManager t
      → IsSized ⦃o = pio_address⦄ (pio_ranges rs)
      → register_pio_resources t d rs ≡ Resourceful.register_pio_resources t d rs
  unfolding register_pio_resources Resourceful.register_pio_resources Manager.register_pio
      pio_manager filter_map
  register_pio_same t d [] v h = refl
  register_pio_same t d (pio_address_range base size ∷ rs) v (h, hs) =
      let made = new-done ⦃o = pio_address⦄ (record { offset = base }) size h in
      elim (new_cases ⦃o = pio_address⦄ (record { offset = base }) size h) [
        | inl (bad, e) ↦
            rw (register_pio_resources, Resourceful.register_pio_resources, made, e) refl
        | inr (good, e) ↦
            let range : BusRange PioAddress = record {
              base = record { offset = base };
              size = size;
            } in
            let entered = register-done ⦃o = pio_address⦄ t.pio_bus range d v.pio good in
            let kept = register-IsValid ⦃o = pio_address⦄ t.pio_bus range d v.pio good in
            rw (register_pio_resources, Resourceful.register_pio_resources, made, e, entered)
              (elim (Result-cases (Bus.register ⦃o = pio_address⦄ t.pio_bus range d).1) [
                | inr (x, taken) ↦ rw taken refl
                | inl (u, free) ↦ rw free (
                    register_pio_same
                      (record t { pio_bus = (Bus.register ⦃o = pio_address⦄ t.pio_bus range d).0 })
                      d rs (record { pio = kept; mmio = v.mmio }) hs)
              ])
      ]
  register_pio_same t d (_ ∷ rs) v h = register_pio_same t d rs v h

  -- For a valid manager and sizes that fit their types, `register_resources` ends as it does in a
  -- build in which arithmetic wraps around.
  pub register_resources_same :
      {T : Type 0} (as_mmio : T → M) (as_pio : T → P) (t : IoManager P M) (d : T)
      (rs : List Resource)
      → IsValidManager t
      → IsSizedResources rs
      → register_resources as_mmio as_pio t d rs
        ≡ Resourceful.register_resources as_mmio as_pio t d rs
  unfolding register_resources Resourceful.register_resources
  register_resources_same as_mmio as_pio t d rs v h =
      let (valid, _, _) = register_mmio_resources-Ends t rs v h (as_mmio d) in
      let same = register_mmio_same t (as_mmio d) rs v h.mmio in
      elim (ending (Resourceful.register_mmio_resources t (as_mmio d) rs).1) [
        | inl e ↦
            rw (register_resources, Resourceful.register_resources, same, e)
              (rw same (register_pio_same _ (as_pio d) rs valid h.pio))
        | inr (inl (x, e)) ↦
            rw (register_resources, Resourceful.register_resources, same, e) (rw same)
        | inr (inr e) ↦ rw (register_resources, Resourceful.register_resources, same, e) (rw same)
      ]

  -- The counter does not overflow where the resources are fewer than 2^64.
  pub deregister_loop-done :
      (t : IoManager P M) (count : ℕ) (rs : List Resource)
      → IsValidManager t
      → count + length rs < 2 ^ 64
      → deregister_loop t count rs ≡ done (Resourceful.deregister_loop t count rs)
  unfolding deregister_loop Resourceful.deregister_loop Manager.deregister_pio
      Manager.deregister_mmio pio_manager mmio_manager step
  deregister_loop-done t count [] v h = refl
  deregister_loop-done t count (pio_address_range base _ ∷ rs) v h =
      let addr : PioAddress = record { offset = base } in
      let (kept, _) = step-Spec ⦃o = pio_address⦄ t.pio_bus (deregisters addr) v.pio tt in
      let (b, removed) = Bus.deregister ⦃o = pio_address⦄ t.pio_bus addr in
      rw
        (
          deregister-done ⦃o = pio_address⦄ t.pio_bus addr v.pio,
          count_one (is_some removed) count (omega arith),
        )
        (deregister_loop-done (record t { pio_bus = b })
          (if is_some removed then count + 1 else count) rs (record { pio = kept; mmio = v.mmio })
          (ground arith))
  deregister_loop-done t count (mmio_address_range base _ ∷ rs) v h =
      let addr : MmioAddress = record { offset = base } in
      let (kept, _) = step-Spec ⦃o = mmio_address⦄ t.mmio_bus (deregisters addr) v.mmio tt in
      let (b, removed) = Bus.deregister ⦃o = mmio_address⦄ t.mmio_bus addr in
      rw
        (
          deregister-done ⦃o = mmio_address⦄ t.mmio_bus addr v.mmio,
          count_one (is_some removed) count (omega arith),
        )
        (deregister_loop-done (record t { mmio_bus = b })
          (if is_some removed then count + 1 else count) rs (record { pio = v.pio; mmio = kept })
          (ground arith))
  deregister_loop-done t count (_ ∷ rs) v h = deregister_loop-done t count rs v (omega arith)
