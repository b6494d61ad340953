-- ===== src/Manager/RoundTrip.antt =====
-- src/device_manager.rs: deregistering the resources of a device after their registration.
use vm_device.Prelude.{
  ℕ, ◌+◌, ◌≡◌, ◌∙◌, refl, List, [], ◌∷◌, Option, none, some, arith, done, ok, if◌then◌else◌, length,
}
use mathlib.Core.Path.{fun_ext, ap₂}
use vm_device.Address.{BusAddress}
use vm_device.Range.{BusRange, Contains}
use vm_device.Bus.{Bus, deregister}
use vm_device.Bus.View.{contains, set_range, IsValid, view}
use vm_device.Bus.Deregister.{deregister_present}
use vm_device.Bus.Extensional.{view_injective}
use vm_device.Address.Mmio.{mmio_address}
use vm_device.Address.Pio.{pio_address}
use vm_device.Resources.{Resource}
use vm_device.Manager.{IoManager}
use vm_device.Manager.Resourceful.{register_resources, deregister_resources}
use vm_device.Manager.Outcomes.{IsValidManager, IsSizedResources, register_resources-both}
use vm_device.Manager.Ranges.{
  register_all, deregister_all, deregister_loop-all, pio_ranges, mmio_ranges,
}
use vm_device.Manager.Registration.{
  IsSized, IsFreeIn, Registrable, set_ranges, register_all-Ends, register_all-ok_iff,
}

module _ {A D : Type 0} ⦃o : BusAddress A⦄ where
  -- Settings at two ranges that have no address in common can be exchanged.
  set_range_comm :
      (f : ℕ → Option (BusRange A × D)) (r s : BusRange A) (x y : Option (BusRange A × D))
      → ((n : ℕ) → Contains r n → ¬ Contains s n)
      → set_range (set_range f r x) s y ≡ set_range (set_range f s y) r x
  set_range_comm f r s x y apart = fun_ext λ n. ground (arith, apart n)

  -- An entry stays where registrations succeed.
  set_ranges_keep :
      (d : D) (rs : List (A × ℕ)) (f : ℕ → Option (BusRange A × D)) (n : ℕ) (e : BusRange A × D)
      → Registrable f d rs
      → f n ≡ some e
      → set_ranges f d rs n ≡ some e
  set_ranges_keep d [] f n e h p = p
  set_ranges_keep d ((base, size) ∷ rs) f n e h p =
      let r : BusRange A = record { base = base; size = size } in
      set_ranges_keep d rs (set_range f r (some (r, d))) n e h.2 (ground (arith, h.1 n))

  -- Where ranges can be registered beside a free range, they can be registered without it, and the
  -- result differs at that range alone.
  set_ranges_without :
      (d : D) (rs : List (A × ℕ)) (f : ℕ → Option (BusRange A × D)) (r : BusRange A)
      (e : BusRange A × D)
      → IsFreeIn f r
      → Registrable (set_range f r (some e)) d rs
      → Registrable f d rs
        × ((n : ℕ)
            → (if contains r n then none else set_ranges (set_range f r (some e)) d rs n)
              ≡ set_ranges f d rs n)
  set_ranges_without d [] f r e free h = (tt, λ n. ground (arith, free n))
  set_ranges_without d ((base, size) ∷ rs) f r e free h =
      let s : BusRange A = record { base = base; size = size } in
      let apart : (n : ℕ) → Contains r n → ¬ Contains s n =
        λ n in_r in_s. ground (arith, h.1 n in_s) in
      let swap = set_range_comm f r s (some e) (some (s, d)) apart in
      let later : Registrable (set_range (set_range f s (some (s, d))) r (some e)) d rs =
        rw swap at h.2 in
      let (rest, same) =
        set_ranges_without d rs (set_range f s (some (s, d))) r e
          (λ n in_r. ground (arith, apart n in_r, free n in_r)) later in
      ((h.0, λ n in_s. ground (arith, h.1 n in_s), rest), λ n. rw swap (same n))

  -- One step: deregistering the first of the ranges gives what the others alone would give.
  deregister_first :
      (b : Bus A D) (d : D) (base : A) (size : ℕ) (rs : List (A × ℕ))
      → IsValid b
      → IsSized ((base, size) ∷ rs)
      → (register_all b d ((base, size) ∷ rs)).1 ≡ done (ok tt)
      → (deregister (register_all b d ((base, size) ∷ rs)).0 base
          ≡ ((register_all b d rs).0, some (record { base = base; size = size }, d)))
        × ((register_all b d rs).1 ≡ done (ok tt))
  deregister_first b d base size rs v h e =
      let r : BusRange A = record { base = base; size = size } in
      let all : List (A × ℕ) = (base, size) ∷ rs in
      let (valid, free, later) = (register_all-ok_iff b d all v h).0.0 e in
      let reads = (register_all-ok_iff b d all v h).1 e in
      let (rest, same) = set_ranges_without d rs (view b) r (r, d) free later in
      let others_ok = (register_all-ok_iff b d rs v h.1).0.1 rest in
      let others = (register_all-ok_iff b d rs v h.1).1 others_ok in
      let found : view (register_all b d all).0 (o.value base) ≡ some (r, d) = rw reads (
        set_ranges_keep d rs (set_range (view b) r (some (r, d))) (o.value base) (r, d) later
          (ground (arith, valid.nonempty))) in
      let (removed, kept, gone) =
        deregister_present (register_all b d all).0 base (register_all-Ends b d all v h).0 r d
          found in
      let same_bus =
        view_injective _ (register_all b d rs).0 kept (register_all-Ends b d rs v h.1).0
          λ n. gone n ∙ (rw (reads, others) (same n)) in
      (ap₂ (λ x y. (x, y)) same_bus removed, others_ok)

  -- Deregistering at each base after a registration that succeeded gives the bus before it, and
  -- counts every range.
  pub deregister_all-register_all :
      (b : Bus A D) (d : D) (rs : List (A × ℕ))
      → IsValid b
      → IsSized rs
      → (register_all b d rs).1 ≡ done (ok tt)
      → deregister_all (register_all b d rs).0 rs ≡ (b, length rs)
  unfolding deregister_all
  deregister_all-register_all b d [] v h e = unfold register_all in refl
  deregister_all-register_all b d ((base, size) ∷ rs) v h e =
      let (first, others_ok) = deregister_first b d base size rs v h e in
      rw (first, deregister_all-register_all b d rs v h.1 others_ok) (ground arith)

module _ {P M T : Type 0} (as_mmio : T → M) (as_pio : T → P) where
  -- From a valid manager, and for sizes that fit their types, a registration of resources that
  -- succeeds is undone by deregistering the same resources: the manager is again as it was, and the
  -- count is that of the address ranges.
  pub deregister_resources-register_resources :
      (t : IoManager P M) (d : T) (rs : List Resource)
      → IsValidManager t
      → IsSizedResources rs
      → (register_resources as_mmio as_pio t d rs).1 ≡ done (ok tt)
      → deregister_resources (register_resources as_mmio as_pio t d rs).0 rs
        ≡ (t, length (pio_ranges rs) + length (mmio_ranges rs))
  unfolding deregister_resources
  deregister_resources-register_resources t d rs v h e =
      let (on_mmio, on_pio, both) = register_resources-both t rs v h as_mmio as_pio d e in
      let mmio =
        deregister_all-register_all ⦃o = mmio_address⦄ t.mmio_bus (as_mmio d) (mmio_ranges rs)
          v.mmio h.mmio on_mmio in
      let pio =
        deregister_all-register_all ⦃o = pio_address⦄ t.pio_bus (as_pio d) (pio_ranges rs) v.pio
          h.pio on_pio in
      rw (both, deregister_loop-all, mmio, pio) (ground arith)
