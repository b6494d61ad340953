-- ===== src/Manager/Registration.antt =====
-- src/device_manager.rs: how the registration of one device at a list of ranges can end, on one
-- bus, and what is registered then.
use vm_device.Prelude.{
  ℕ, ◌<◌, ◌^◌, ◌≡◌, ◌⊎◌, ◌↔◌, inl, inr, ap, refl, List, [], ◌∷◌, Option, none, some, arith, Outcome,
  done, panic, Result, ok, err, ok_or_not, All,
}
use mathlib.Core.Path.{fun_ext}
use vm_device.Address.{BusAddress}
use vm_device.Range
use vm_device.Range.{BusRange, Contains}
use vm_device.Range.Laws.{new_lem}
use vm_device.Bus.{Bus, register}
use vm_device.Bus.Errors.{device_overlap, invalid_range}
use vm_device.Bus.View.{set_range, IsValid, view}
use vm_device.Bus.Register.{register-ok_iff, register-overlap, register-IsValid, view-register}
use vm_device.Manager.{Error, bus}
use vm_device.Manager.Ranges.{register_all}

module _ {A : Type 0} ⦃o : BusAddress A⦄ where
  -- The sizes fit the value type of the addresses.
  abbrev pub IsSized : List (A × ℕ) → Type 0
  IsSized = All (λ r. r.1 < 2 ^ o.bits)

  pub new_cases :
      (base : A) (size : ℕ)
      → size < 2 ^ o.bits
      → let r : BusRange A = record { base = base; size = size } in
        ((¬ Range.IsValid r) × (Range.new base size ≡ err invalid_range))
        ⊎ (Range.IsValid r × (Range.new base size ≡ ok r))
  new_cases base size h = ground (arith, new_lem base size h)

module _ {A D : Type 0} ⦃o : BusAddress A⦄ where
  -- No address of the range has an entry.
  abbrev pub IsFreeIn : (ℕ → Option (BusRange A × D)) → BusRange A → Type 0
  IsFreeIn f r = (n : ℕ) → Contains r n → f n ≡ none

  -- How a registration of one device at each of a list of ranges changes the function from
  -- addresses to entries, and how it ends: it stops with a panic at a range that is not valid, and
  -- with an error at a range that is not free; what it has registered before stays.
  abbrev pub Ends :
      (ℕ → Option (BusRange A × D))
      → D
      → List (A × ℕ)
      → (ℕ → Option (BusRange A × D))
      → Outcome (Result (Unit {0}) Error)
      → Type 0
  Ends f d [] g x = (g ≡ f) × (x ≡ done (ok tt))
  Ends f d ((base, size) ∷ rs) g x =
      let r : BusRange A = record { base = base; size = size } in
      (((¬ Range.IsValid r) × (g ≡ f) × (x ≡ panic))
        ⊎ (Range.IsValid r × (¬ IsFreeIn f r) × (g ≡ f) × (x ≡ done (err (bus device_overlap))))
        ⊎ (Range.IsValid r × IsFreeIn f r × Ends (set_range f r (some (r, d))) d rs g x))

  -- Each range is valid, and free when its turn comes.
  abbrev pub Registrable : (ℕ → Option (BusRange A × D)) → D → List (A × ℕ) → Type 0
  Registrable f d [] = Unit
  Registrable f d ((base, size) ∷ rs) =
      let r : BusRange A = record { base = base; size = size } in
      Range.IsValid r × IsFreeIn f r × Registrable (set_range f r (some (r, d))) d rs

  -- The function with the device at each of the ranges.
  abbrev pub set_ranges :
      (ℕ → Option (BusRange A × D)) → D → List (A × ℕ) → ℕ → Option (BusRange A × D)
  set_ranges f d [] = f
  set_ranges f d ((base, size) ∷ rs) =
      let r : BusRange A = record { base = base; size = size } in
      set_ranges (set_range f r (some (r, d))) d rs

  pub register_all-Ends :
      (b : Bus A D) (d : D) (rs : List (A × ℕ))
      → IsValid b
      → IsSized rs
      → IsValid (register_all b d rs).0
        × Ends (view b) d rs (view (register_all b d rs).0) (register_all b d rs).1
  unfolding register_all
  register_all-Ends b d [] v h = (v, (refl, refl))
  register_all-Ends b d ((base, size) ∷ rs) v (h, hs) = elim (new_cases base size h) [
    | inl (bad, e) ↦ rw (e, register_all) (v, inl (bad, refl, refl))
    | inr (good, e) ↦
        let r : BusRange A = record { base = base; size = size } in
        rw (e, register_all)
          (elim (ok_or_not (register b r d).1) [
            | inl free ↦
                let kept = register-IsValid b r d v good in
                let later = register_all-Ends (register b r d).0 d rs kept hs in
                rw (free, register_all)
                  (
                    later.0,
                    inr (
                        inr (
                          good,
                          (register-ok_iff b r d v good).0 free,
                          rw (← fun_ext (view-register b r d v good free)) later.1,
                        )),
                  )
            | inr taken ↦
                let same = register-overlap b r d v good taken in
                rw (ap (λ p. p.1) same, register_all, ap (λ p. p.0) same)
                  (
                    v,
                    inr (
                        inl (
                          good,
                          λ free. taken ((register-ok_iff b r d v good).1 free),
                          refl,
                          refl,
                        )),
                  )
          ])
  ]

  -- Ending without an error is to be registrable, and then all ranges are set.
  Ends-ok :
      (d : D) (rs : List (A × ℕ)) (f g : ℕ → Option (BusRange A × D))
      (x : Outcome (Result (Unit {0}) Error))
      → Ends f d rs g x
      → ((x ≡ done (ok tt)) ↔ Registrable f d rs) × ((x ≡ done (ok tt)) → g ≡ set_ranges f d rs)
  Ends-ok d [] f g x e = ((λ _. tt, λ _. e.1), λ _. e.0)
  Ends-ok d ((base, size) ∷ rs) f g x (inl e) =
      ((λ p. absurd (ground arith), λ p. absurd (e.0 p.0)), λ p. absurd (ground arith))
  Ends-ok d ((base, size) ∷ rs) f g x (inr (inl e)) =
      ((λ p. absurd (ground arith), λ p. absurd (e.1 p.1)), λ p. absurd (ground arith))
  Ends-ok d ((base, size) ∷ rs) f g x (inr (inr e)) =
      let r : BusRange A = record { base = base; size = size } in
      let rest = Ends-ok d rs (set_range f r (some (r, d))) g x e.2 in
      ((λ p. (e.0, e.1, rest.0.0 p), λ p. rest.0.1 p.2), rest.1)

  pub register_all-ok_iff :
      (b : Bus A D) (d : D) (rs : List (A × ℕ))
      → IsValid b
      → IsSized rs
      → (((register_all b d rs).1 ≡ done (ok tt)) ↔ Registrable (view b) d rs)
        × (((register_all b d rs).1 ≡ done (ok tt))
            → view (register_all b d rs).0 ≡ set_ranges (view b) d rs)
  register_all-ok_iff b d rs v h = Ends-ok d rs _ _ _ (register_all-Ends b d rs v h).1
