-- ===== src/Bus/History.antt =====
-- src/bus/mod.rs: any sequence of calls on a bus, against a specification that knows only a
-- function from addresses to entries.
use vm_device.Prelude.{
  ℕ, ◌+◌, ◌≡◌, ◌⊎◌, ◌||◌, ◌==◌, ◌^◌, leb, ltb, ap, ok_or_not, Option-cases, inl, inr, refl, sym,
  ◌∙◌, List, [], ◌∷◌, Option, none, some, if◌then◌else◌, All, Result, ok, err,
}
use mathlib.Core.Path.{fun_ext, ap₂}
use mathlib.Core.Option.{some-injective}
use vm_device.Address.{BusAddress}
use vm_device.Range
use vm_device.Range.{BusRange, Contains}
use vm_device.Bus.{Bus, new, device, register, deregister, check_access}
use vm_device.Bus.Errors.{Error, device_overlap, invalid_access_length, invalid_range}
use vm_device.Bus.View.{set_range, IsValid, view}
use vm_device.Bus.Lookup.{device-view}
use vm_device.Bus.Register.{register-ok_iff, register-overlap, register-IsValid, view-register}
use vm_device.Bus.Deregister.{deregister_absent, deregister_present}
use vm_device.Bus.Access.{granted, check_access_lem}

pub data Call (A D : Type 0) : Type 0 where
  registers : BusRange A → D → Call A D
  deregisters : A → Call A D
  looks_up : A → Call A D
  checks : A → ℕ → Call A D

pub data Reply (A D : Type 0) : Type 0 where
  registered : Result (Unit {0}) Error → Reply A D
  deregistered : Option (BusRange A × D) → Reply A D
  looked_up : Option (BusRange A × D) → Reply A D
  checked : Result (BusRange A × D) Error → Reply A D

module _ {A D : Type 0} ⦃o : BusAddress A⦄ where
  unfoldable pub step : Bus A D → Call A D → Bus A D × Reply A D
  step b (registers r d) = let (b', x) = register b r d in (b', registered x)
  step b (deregisters addr) = let (b', x) = deregister b addr in (b', deregistered x)
  step b (looks_up addr) = (b, looked_up (device b addr))
  step b (checks addr len) = (b, checked (check_access b addr len))

  unfoldable pub run : Bus A D → List (Call A D) → Bus A D × List (Reply A D)
  run b [] = (b, [])
  run b (c ∷ cs) = let (b', x) = step b c in let (b'', xs) = run b' cs in (b'', x ∷ xs)

  -- The outcome of `check_access`, as `check_access_lem` states it, on a function.
  abbrev pub access_reply : (ℕ → Option (BusRange A × D)) → A → ℕ → Result (BusRange A × D) Error
  access_reply f addr len =
      if leb (2 ^ o.bits) len
      then err (invalid_access_length len)
      else if len == 0 || ltb (2 ^ o.bits) (o.value addr + len)
      then err invalid_range
      else granted (f (o.value addr)) (o.value addr + len)

  -- What a call may do to the function, and what it then replies.
  abbrev pub Spec :
      (ℕ → Option (BusRange A × D)) → Call A D → (ℕ → Option (BusRange A × D)) → Reply A D → Type 0
  Spec f (registers r d) g x =
      ((((n : ℕ) → Contains r n → f n ≡ none)
          × (g ≡ set_range f r (some (r, d)))
          × (x ≡ registered (ok tt)))
        ⊎ ((¬ ((n : ℕ) → Contains r n → f n ≡ none))
            × (g ≡ f)
            × (x ≡ registered (err device_overlap))))
  Spec f (deregisters addr) g x =
      (((f (o.value addr) ≡ none) × (g ≡ f) × (x ≡ deregistered none))
        ⊎ ((r : BusRange A) × (d : D) × (f (o.value addr) ≡ some (r, d))
            × (g ≡ set_range f r none)
            × (x ≡ deregistered (some (r, d)))))
  Spec f (looks_up addr) g x = (g ≡ f) × (x ≡ looked_up (f (o.value addr)))
  Spec f (checks addr len) g x = (g ≡ f) × (x ≡ checked (access_reply f addr len))

  -- A sequence of such calls, with one reply for each.
  abbrev pub SpecRun :
      (ℕ → Option (BusRange A × D))
      → List (Call A D)
      → (ℕ → Option (BusRange A × D))
      → List (Reply A D)
      → Type 0
  SpecRun f [] g [] = g ≡ f
  SpecRun f [] g (x ∷ xs) = ⊥
  SpecRun f (c ∷ cs) g [] = ⊥
  SpecRun f (c ∷ cs) g (x ∷ xs) =
      (h : ℕ → Option (BusRange A × D)) × Spec f c h x × SpecRun h cs g xs

  -- The ranges that are registered are valid.
  abbrev pub IsValidCall : Call A D → Type 0
  IsValidCall (registers r d) = Range.IsValid r
  IsValidCall _ = Unit

  pub step-Spec :
      (b : Bus A D) (c : Call A D)
      → IsValid b
      → IsValidCall c
      → IsValid (step b c).0 × Spec (view b) c (view (step b c).0) (step b c).1
  unfolding step
  step-Spec b (registers r d) v w =
      let kept = register-IsValid b r d v w in
      elim (ok_or_not (register b r d).1) [
        | inl e ↦ (
          kept,
          inl (
            (register-ok_iff b r d v w).0 e,
            fun_ext (view-register b r d v w e),
            ap registered e,
          ),
        )
        | inr e ↦
            let same = register-overlap b r d v w e in
            (
              kept,
              inr (
                λ free. e ((register-ok_iff b r d v w).1 free),
                ap (λ p. view p.0) same,
                ap (λ p. registered p.1) same,
              ),
            )
      ]
  step-Spec b (deregisters addr) v w = elim (Option-cases (view b (o.value addr))) [
    | inl e ↦ rw (deregister_absent b addr v e) (v, inl (e, refl, refl))
    | inr ((r, d), e) ↦
        let (removed, kept, reads) = deregister_present b addr v r d e in
        (kept, inr (r, d, e, fun_ext reads, ap deregistered removed))
  ]
  step-Spec b (looks_up addr) v w = (v, (refl, ap looked_up (device-view b addr v)))
  step-Spec b (checks addr len) v w = (v, (refl, ap checked (check_access_lem b addr len v)))

  -- A bus refines its specification: from a valid bus, any sequence of calls that registers valid
  -- ranges leaves a valid bus, and each call changes the view and replies as the specification
  -- allows.
  pub run-SpecRun :
      (b : Bus A D) (cs : List (Call A D))
      → IsValid b
      → All IsValidCall cs
      → IsValid (run b cs).0 × SpecRun (view b) cs (view (run b cs).0) (run b cs).1
  unfolding run
  run-SpecRun b [] v w = (v, refl)
  run-SpecRun b (c ∷ cs) v (w, ws) =
      let (valid, one) = step-Spec b c v w in
      let (valid', more) = run-SpecRun (step b c).0 cs valid ws in
      (valid', (view (step b c).0, one, more))

  pub new-IsValid : IsValid (new {A = A} {D = D})
  unfolding new
  new-IsValid = record { chain = tt }

  pub view-new : view (new {A = A} {D = D}) ≡ (λ _. none)
  unfolding new view
  view-new = refl

  Spec-unique :
      (c : Call A D) (f g h : ℕ → Option (BusRange A × D)) (x y : Reply A D)
      → Spec f c g x
      → Spec f c h y
      → (g ≡ h) × (x ≡ y)
  Spec-unique (registers r d) f g h x y (inl p) (inl q) = (p.1 ∙ sym q.1, p.2 ∙ sym q.2)
  Spec-unique (registers r d) f g h x y (inl p) (inr q) = absurd (q.0 p.0)
  Spec-unique (registers r d) f g h x y (inr p) (inl q) = absurd (p.0 q.0)
  Spec-unique (registers r d) f g h x y (inr p) (inr q) = (p.1 ∙ sym q.1, p.2 ∙ sym q.2)
  Spec-unique (deregisters addr) f g h x y (inl p) (inl q) = (p.1 ∙ sym q.1, p.2 ∙ sym q.2)
  Spec-unique (deregisters addr) f g h x y (inl p) (inr q) = absurd (cc)
  Spec-unique (deregisters addr) f g h x y (inr p) (inl q) = absurd (cc)
  Spec-unique (deregisters addr) f g h x y (inr (r, d, e, p, q)) (inr (s, k, e', p', q')) =
      let same = some-injective (r, d) (s, k) (sym e ∙ e') in
      (
        p ∙ ap (λ t. set_range f t.0 none) same ∙ sym p',
        q ∙ ap (λ t. deregistered (some t)) same ∙ sym q',
      )
  Spec-unique (looks_up addr) f g h x y p q = (p.0 ∙ sym q.0, p.1 ∙ sym q.1)
  Spec-unique (checks addr len) f g h x y p q = (p.0 ∙ sym q.0, p.1 ∙ sym q.1)

  -- The specification leaves no choice: with the same calls, two runs that it allows end in the
  -- same function and give the same replies.
  pub SpecRun-unique :
      (cs : List (Call A D)) (f g h : ℕ → Option (BusRange A × D)) (xs ys : List (Reply A D))
      → SpecRun f cs g xs
      → SpecRun f cs h ys
      → (g ≡ h) × (xs ≡ ys)
  SpecRun-unique [] f g h [] [] p q = (p ∙ sym q, refl)
  SpecRun-unique [] f g h [] (y ∷ ys) p q = absurd q
  SpecRun-unique [] f g h (x ∷ xs) ys p q = absurd p
  SpecRun-unique (c ∷ cs) f g h [] ys p q = absurd p
  SpecRun-unique (c ∷ cs) f g h (x ∷ xs) [] p q = absurd q
  SpecRun-unique (c ∷ cs) f g h (x ∷ xs) (y ∷ ys) (k, p, ps) (l, q, qs) =
      let (mid, heads) = Spec-unique c f k l x y p q in
      let (ends, tails) = SpecRun-unique cs k g h xs ys ps (rw mid qs) in
      (ends, ap₂ ◌∷◌ heads tails)
