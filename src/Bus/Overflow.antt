-- ===== src/Bus/Overflow.antt =====
-- src/bus/mod.rs: the operations of `Bus` in a build with overflow checks, where a sum or a
-- difference that does not fit its type is a panic.
use vm_device.Prelude.{
  ℕ, ◌≡◌, refl, sym, ◌∙◌, List, [], ◌∷◌, Bool, true, false, Option, none, some, arith, Outcome,
  done, Result, ok, err, if◌then◌else◌, All, Option-cases, inl, inr,
}
use vm_device.Prelude.Panic.{◌>>=◌}
use vm_device.Prelude.Word.{try_from}
use vm_device.Address.{BusAddress, ge}
use vm_device.Range
use vm_device.Range.{BusRange, unit, cmp, end}
use vm_device.Range.Laws.{new-IsValid, new_lem}
use vm_device.Range.Overflow.{new, last, overlaps, new-done, last-done, overlaps-done}
use vm_device.BTreeMap.{insert, remove, range_to_inclusive, keys, nth_back}
use vm_device.BTreeMap.Laws.{nth_back-cons, nth_back-nil}
use vm_device.Bus
use vm_device.Bus.{Bus}
use mathlib.Core.Option
use vm_device.Bus.Errors.{
  Error, device_not_found, device_overlap, invalid_access_length, invalid_range,
}
use vm_device.Bus.View.{Chain, IsValid, view, find-bounds}
use vm_device.Bus.Lookup.{device-view}
use vm_device.Bus.History
use vm_device.Bus.History.{
  Call, Reply, registers, deregisters, looks_up, checks, registered, deregistered, looked_up,
  checked, IsValidCall, run-SpecRun,
}

-- The loop of `register`.
unfoldable pub overlaps_any :
    {A : Type 0} ⦃o : BusAddress A⦄ → BusRange A → List (BusRange A) → Outcome Bool
overlaps_any range [] = done false
overlaps_any range (r ∷ rs) = do
  found ← overlaps range r
  elim found [ true ↦ done true | false ↦ overlaps_any range rs ]

module _ {A D : Type 0} ⦃o : BusAddress A⦄ where
  unfoldable pub device : Bus A D → A → Outcome (Option (BusRange A × D))
  device b addr = elim (nth_back (range_to_inclusive cmp (unit addr) b.devices) 0) [
    | none ↦ done none
    | some pair ↦ do end ← last pair.0; done (if ge end addr then some pair else none)
  ]

  unfoldable pub register : Bus A D → BusRange A → D → Outcome (Bus A D × Result (Unit {0}) Error)
  unfolding overlaps_any
  register b range d = do
    found ← overlaps_any range (keys b.devices)
    done (
        if found
        then (b, err device_overlap)
        else (record { devices = insert cmp range d b.devices }, ok tt))

  unfoldable pub deregister : Bus A D → A → Outcome (Bus A D × Option (BusRange A × D))
  unfolding device
  deregister b addr = do
    found ← device b addr
    done (elim found [
      | none ↦ (b, none)
      | some (range, _) ↦
          let (removed, rest) = remove cmp range b.devices in
          (record { devices = rest }, Option.map (λ d. (range, d)) removed)
    ])

  unfoldable pub check_access : Bus A D → A → ℕ → Outcome (Result (BusRange A × D) Error)
  unfolding device
  check_access b addr len = elim (try_from o.bits len) [
    | none ↦ done (err (invalid_access_length len))
    | some size ↦ do
      made ← new addr size
      elim made [
        | err _ ↦ done (err invalid_range)
        | ok access_range ↦ do
          found ← device b addr
          elim found [
            | none ↦ done (err device_not_found)
            | some pair ↦ do
              end ← last pair.0
              access_end ← last access_range
              done (if ge end access_end then ok pair else err device_not_found)
          ]
      ]
  ]

  last_entry-IsValid :
      (addr : A) (low : ℕ) (m : List (BusRange A × D)) (r : BusRange A) (d : D)
      → Chain low m
      → nth_back (range_to_inclusive cmp (unit addr) m) 0 ≡ some (r, d)
      → Range.IsValid r
  unfolding range_to_inclusive cmp unit
  last_entry-IsValid addr low [] r d c e =
      absurd (ground (arith, nth_back-nil {A = BusRange A × D}))
  last_entry-IsValid addr low ((s, f) ∷ m) r d c e = ground (
    arith,
    o.cmp_value s.base addr,
    nth_back-nil {A = BusRange A × D},
    nth_back-cons (s, f) (range_to_inclusive cmp (unit addr) m),
    last_entry-IsValid addr (end s) m r d c.2,
  )

  pub device-done : (b : Bus A D) (addr : A) → IsValid b → device b addr ≡ done (Bus.device b addr)
  unfolding device Bus.device
  device-done b addr v =
      elim (Option-cases (nth_back (range_to_inclusive cmp (unit addr) b.devices) 0)) [
        | inl e ↦ ground arith
        | inr ((r, d), e) ↦
            let fits = last-done r (last_entry-IsValid addr 0 b.devices r d v.chain e) in
            ground arith
      ]

  overlaps_any-done :
      (r : BusRange A) (low : ℕ) (m : List (BusRange A × D))
      → Range.IsValid r
      → Chain low m
      → overlaps_any r (keys m) ≡ done (Bus.overlaps_any r (keys m))
  unfolding overlaps_any Bus.overlaps_any
  overlaps_any-done r low [] v c = refl
  overlaps_any-done r low ((s, d) ∷ m) v c =
      rw (overlaps-done r s v c.1) (ground (arith, overlaps_any-done r (end s) m v c.2))

  device-IsValid :
      (b : Bus A D) (addr : A)
      → IsValid b
      → (r : BusRange A) (d : D) → Bus.device b addr ≡ some (r, d)
      → Range.IsValid r
  unfolding view
  device-IsValid b addr v r d e =
      (find-bounds (o.value addr) 0 b.devices r d v.chain (sym (device-view b addr v) ∙ e)).1

  pub register-done :
      (b : Bus A D) (r : BusRange A) (d : D)
      → IsValid b
      → Range.IsValid r
      → register b r d ≡ done (Bus.register b r d)
  unfolding register Bus.register
  register-done b r d v w = rw (overlaps_any-done r 0 b.devices w v.chain)

  pub deregister-done :
      (b : Bus A D) (addr : A) → IsValid b → deregister b addr ≡ done (Bus.deregister b addr)
  unfolding deregister Bus.deregister
  deregister-done b addr v = rw (device-done b addr v) (ground arith)

  pub check_access-done :
      (b : Bus A D) (addr : A) (len : ℕ)
      → IsValid b
      → check_access b addr len ≡ done (Bus.check_access b addr len)
  unfolding check_access Bus.check_access
  check_access-done b addr len v =
      let access : BusRange A = record { base = addr; size = len } in
      elim (Option-cases (Bus.device b addr)) [
        | inl e ↦ ground (
          arith,
          new-done addr len,
          device-done b addr v,
          last-done access,
          new-IsValid addr len {r = access},
          new_lem addr len,
        )
        | inr ((r, d), e) ↦
            let fits = last-done r (device-IsValid b addr v r d e) in
            ground (
              arith,
              new-done addr len,
              device-done b addr v,
              last-done access,
              new-IsValid addr len {r = access},
              new_lem addr len,
            )
      ]

  unfoldable pub step : Bus A D → Call A D → Outcome (Bus A D × Reply A D)
  step b (registers r d) = do (b', x) ← register b r d; done (b', registered x)
  step b (deregisters addr) = do (b', x) ← deregister b addr; done (b', deregistered x)
  step b (looks_up addr) = do x ← device b addr; done (b, looked_up x)
  step b (checks addr len) = do x ← check_access b addr len; done (b, checked x)

  unfoldable pub run : Bus A D → List (Call A D) → Outcome (Bus A D × List (Reply A D))
  run b [] = done (b, [])
  run b (c ∷ cs) = do (b', x) ← step b c; (b'', xs) ← run b' cs; done (b'', x ∷ xs)

  pub step-done :
      (b : Bus A D) (c : Call A D) → IsValid b → IsValidCall c → step b c ≡ done (History.step b c)
  unfolding step History.step
  step-done b (registers r d) v w = rw (register-done b r d v w)
  step-done b (deregisters addr) v w = rw (deregister-done b addr v)
  step-done b (looks_up addr) v w = rw (device-done b addr v)
  step-done b (checks addr len) v w = rw (check_access-done b addr len v)

  -- Overflow checks make no difference: from a valid bus, no sum or difference in any sequence of
  -- calls that registers valid ranges overflows, so a build that panics on overflow never panics
  -- here, and ends with the bus and the replies of a build in which arithmetic wraps around.
  pub run-done :
      (b : Bus A D) (cs : List (Call A D))
      → IsValid b
      → All IsValidCall cs
      → run b cs ≡ done (History.run b cs)
  unfolding run History.run
  run-done b [] v w = refl
  run-done b (c ∷ cs) v (w, ws) =
      let valid = (run-SpecRun b (c ∷ []) v (w, tt)).0 in
      rw (step-done b c v w, run-done (History.step b c).0 cs valid ws)
