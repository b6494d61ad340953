-- ===== src/Bus/Extensional.antt =====
-- src/bus/mod.rs: a bus and the function from addresses to entries that it stands for, and the
-- order of registrations and deregistrations.
use vm_device.Prelude.{
  ℕ, ◌≡◌, ◌↔◌, refl, ap, List, [], ◌∷◌, some, arith, ok, Option-cases, inl, inr,
}
use vm_device.Address.{BusAddress}
use vm_device.Range
use vm_device.Range.{BusRange, start, end, Contains}
use vm_device.Bus.{Bus, register, deregister}
use vm_device.Bus.View.{find, find_below, find-bounds, find_whole, Chain, Chain-le, IsValid, view}
use vm_device.Bus.Register.{IsFree, register-ok_iff, register-IsValid, view-register}
use vm_device.Bus.Deregister.{deregister_absent, deregister_present}

module _ {A D : Type 0} ⦃o : BusAddress A⦄ where
  Chain-ext :
      (low : ℕ) (m k : List (BusRange A × D))
      → Chain low m
      → Chain low k
      → ((n : ℕ) → find n m ≡ find n k)
      → m ≡ k
  unfolding find
  Chain-ext low [] [] c e h = refl
  Chain-ext low [] ((s, f) ∷ k) c e h = absurd (ground (arith, h (start s), e.1.nonempty))
  Chain-ext low ((r, d) ∷ m) [] c e h = absurd (ground (arith, h (start r), c.1.nonempty))
  Chain-ext low ((r, d) ∷ m) ((s, f) ∷ k) c e h =
      let heads : (r ≡ s) × (d ≡ f) = ground (
        arith,
        h (start r),
        h (start s),
        find_below (start r) (end s) k,
        find_below (start s) (end r) m,
        c.1.nonempty,
        e.1.nonempty,
      ) in
      let rest : m ≡ k =
        Chain-ext (end r) m k c.2 (Chain-le (end r) (end s) k (ground arith) e.2)
          λ n. ground (arith, h n, find_below n (end r) m, find_below n (end s) k) in
      ground arith

  -- Two valid buses that map every address to the same entry are equal.
  pub view_injective :
      (b c : Bus A D) → IsValid b → IsValid c → ((n : ℕ) → view b n ≡ view c n) → b ≡ c
  unfolding view
  view_injective b c v w h =
      ap (λ m. record { devices = m }) (Chain-ext 0 b.devices c.devices v.chain w.chain h)

  -- Two registrations that both succeed, succeed in the other order too, with the same result.
  -- This is for a valid bus and valid ranges.
  pub register_comm :
      (b : Bus A D) (r s : BusRange A) (d f : D)
      → IsValid b
      → Range.IsValid r
      → Range.IsValid s
      → (register b r d).1 ≡ ok tt
      → (register (register b r d).0 s f).1 ≡ ok tt
      → ((register b s f).1 ≡ ok tt)
        × ((register (register b s f).0 r d).1 ≡ ok tt)
        × ((register (register b s f).0 r d).0 ≡ (register (register b r d).0 s f).0)
  register_comm b r s d f v w x e g =
      let b_r = (register b r d).0 in
      let b_s = (register b s f).0 in
      let valid_r : IsValid b_r = register-IsValid b r d v w in
      let valid_s : IsValid b_s = register-IsValid b s f v x in
      let free_r = (register-ok_iff b r d v w).0 e in
      let free_s_later = (register-ok_iff b_r s f valid_r x).0 g in
      let free_s : IsFree b s =
        λ n c. ground (arith, free_s_later n c, view-register b r d v w e n) in
      let ok_s = (register-ok_iff b s f v x).1 free_s in
      let free_r_later : IsFree b_s r = λ n c. ground (
        arith,
        free_r n c,
        free_s_later n,
        view-register b r d v w e n,
        view-register b s f v x ok_s n,
      ) in
      let ok_r = (register-ok_iff b_s r d valid_s w).1 free_r_later in
      (
        ok_s,
        ok_r,
        view_injective _ _ (register-IsValid b_s r d valid_s w) (register-IsValid b_r s f valid_r x)
            λ n. ground (
              arith,
              free_s_later n,
              view-register b r d v w e n,
              view-register b s f v x ok_s n,
              view-register b_s r d valid_s w ok_r n,
              view-register b_r s f valid_r x g n,
            ),
      )

  -- An entry that was taken off a bus can be put back.
  deregister_undone :
      (b c : Bus A D) (r : BusRange A) (d : D) (addr : A)
      → IsValid b
      → deregister b addr ≡ (c, some (r, d))
      → (register c r d ≡ (b, ok tt)) × Contains r (o.value addr)
  unfolding view
  deregister_undone b c r d addr v h = elim (Option-cases (view b (o.value addr))) [
    | inl e ↦ absurd (ground (arith, deregister_absent b addr v e))
    | inr ((s, f), e) ↦
        let (returned, kept, after) = deregister_present b addr v s f e in
        let same : (r ≡ s) × (d ≡ f) × ((deregister b addr).0 ≡ c) = ground arith in
        let (_, good, within) = find-bounds (o.value addr) 0 b.devices s f v.chain e in
        let left = (deregister b addr).0 in
        let free : IsFree left s = λ n k. ground (arith, after n) in
        let ok_s = (register-ok_iff left s f kept good).1 free in
        let back : (register left s f).0 ≡ b =
          view_injective _ b (register-IsValid left s f kept good) v λ n. ground (
            arith,
            after n,
            view-register left s f kept good ok_s n,
            find_whole (o.value addr) n 0 b.devices s f v.chain e,
          ) in
        rw (same.0, same.1, ← same.2) (ground arith, within)
  ]

  -- An entry that was put on a bus can be taken off again.
  register_undone :
      (b c : Bus A D) (r : BusRange A) (d : D) (addr : A)
      → IsValid c
      → Range.IsValid r
      → register c r d ≡ (b, ok tt)
      → Contains r (o.value addr)
      → deregister b addr ≡ (c, some (r, d))
  register_undone b c r d addr w x h within =
      let done_b : (register c r d).0 ≡ b = ap (λ p. p.0) h in
      let done_ok : (register c r d).1 ≡ ok tt = ap (λ p. p.1) h in
      let full = (register c r d).0 in
      let valid : IsValid full = register-IsValid c r d w x in
      let free = (register-ok_iff c r d w x).0 done_ok in
      let at : view full (o.value addr) ≡ some (r, d) =
        ground (arith, view-register c r d w x done_ok (o.value addr)) in
      let (returned, kept, after) = deregister_present full addr valid r d at in
      let back : (deregister full addr).0 ≡ c =
        view_injective _ c kept w
          λ n. ground (arith, after n, free n, view-register c r d w x done_ok n) in
      rw (← done_b) (ground arith)

  -- `deregister` undoes `register`, and the other way round. For valid buses and a valid range,
  -- `deregister` at an address takes one bus to the other and returns the entry, exactly if
  -- `register` of that entry succeeds and takes the other bus back, and the range contains the
  -- address.
  pub deregister-register_iff :
      (b c : Bus A D) (r : BusRange A) (d : D) (addr : A)
      → IsValid b
      → IsValid c
      → Range.IsValid r
      → (deregister b addr ≡ (c, some (r, d)))
        ↔ ((register c r d ≡ (b, ok tt)) × Contains r (o.value addr))
  deregister-register_iff b c r d addr v w x = (
    λ h. deregister_undone b c r d addr v h,
    λ (h, within). register_undone b c r d addr w x h within,
  )
