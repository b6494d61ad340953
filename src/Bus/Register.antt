-- ===== src/Bus/Register.antt =====
-- src/bus/mod.rs: `Bus::register`.
use Prim.Native.Nat.{max}
use vm_device.Prelude.{
  ℕ, ◌≤◌, ◌≡◌, ◌≢◌, ◌↔◌, refl, List, [], ◌∷◌, none, some, arith, true, false, Bool-cases, inl, inr,
  ok, err, if◌then◌else◌,
}
use vm_device.Address.{BusAddress}
use vm_device.Range
use vm_device.Range.{BusRange, cmp, start, end, overlaps, Contains}
use vm_device.Range.Laws.{overlaps-ltb}
use vm_device.BTreeMap.{insert, keys}
use vm_device.Bus.{Bus, register, overlaps_any}
use vm_device.Bus.Errors.{device_overlap}
use vm_device.Bus.View.{find, find-bounds, contains, Chain, IsValid, view}

module _ {A D : Type 0} ⦃o : BusAddress A⦄ where
  -- No entry of the bus contains an address of the range.
  abbrev pub IsFree : Bus A D → BusRange A → Type 0
  IsFree b r = (n : ℕ) → Contains r n → view b n ≡ none

  free_of_no_overlap :
      (r : BusRange A) (low : ℕ) (m : List (BusRange A × D)) (n : ℕ)
      → Range.IsValid r
      → Chain low m
      → overlaps_any r (keys m) ≡ false
      → Contains r n
      → find n m ≡ none
  unfolding overlaps_any find
  free_of_no_overlap r low [] n v c e h = refl
  free_of_no_overlap r low ((s, d) ∷ m) n v c e h =
      ground (arith, overlaps-ltb r s v c.1, free_of_no_overlap r (end s) m n v c.2)

  no_overlap_of_free :
      (r : BusRange A) (low : ℕ) (m : List (BusRange A × D))
      → Range.IsValid r
      → Chain low m
      → ((n : ℕ) → Contains r n → find n m ≡ none)
      → overlaps_any r (keys m) ≡ false
  unfolding overlaps_any find
  no_overlap_of_free r low [] v c h = refl
  no_overlap_of_free r low ((s, d) ∷ m) v c h =
      let apart : overlaps r s ≡ false =
        ground
          (arith, overlaps-ltb r s v c.1, v.nonempty, c.1.nonempty, h (max (start r) (start s))) in
      let rest =
        no_overlap_of_free r (end s) m v c.2 λ n k. ground (arith, h n k, overlaps-ltb r s v c.1) in
      rw apart rest

  taken_of_overlap :
      (r : BusRange A) (low : ℕ) (m : List (BusRange A × D))
      → Range.IsValid r
      → Chain low m
      → overlaps_any r (keys m) ≡ true
      → (n : ℕ) × (e : BusRange A × D) × Contains r n × (find n m ≡ some e)
  unfolding overlaps_any find
  taken_of_overlap r low [] v c h = cc
  taken_of_overlap r low ((s, d) ∷ m) v c h = elim (Bool-cases (overlaps r s)) [
    | inl here ↦ (
      max (start r) (start s),
      (s, d),
      ground (arith, overlaps-ltb r s v c.1, v.nonempty, c.1.nonempty),
      ground (arith, overlaps-ltb r s v c.1, v.nonempty, c.1.nonempty),
    )
    | inr apart ↦
        let (n, (t, f), within, at) = taken_of_overlap r (end s) m v c.2 (ground arith) in
        (n, (t, f), within, ground (arith, find-bounds n (end s) m t f c.2))
  ]

  insert-Chain :
      (r : BusRange A) (d : D) (low : ℕ) (m : List (BusRange A × D))
      → Range.IsValid r
      → low ≤ start r
      → Chain low m
      → overlaps_any r (keys m) ≡ false
      → Chain low (insert cmp r d m)
  unfolding overlaps_any insert cmp
  insert-Chain r d low [] v h c e = (h, v, tt)
  insert-Chain r d low ((s, f) ∷ m) v h c e = ground (
    arith,
    overlaps-ltb r s v c.1,
    o.cmp_value r.base s.base,
    v.nonempty,
    c.1.nonempty,
    insert-Chain r d (end s) m v,
  )

  find-insert :
      (r : BusRange A) (d : D) (low : ℕ) (m : List (BusRange A × D)) (n : ℕ)
      → Range.IsValid r
      → Chain low m
      → overlaps_any r (keys m) ≡ false
      → find n (insert cmp r d m) ≡ (if contains r n then some (r, d) else find n m)
  unfolding overlaps_any insert cmp find
  find-insert r d low [] n v c e = refl
  find-insert r d low ((s, f) ∷ m) n v c e = ground (
    arith,
    overlaps-ltb r s v c.1,
    o.cmp_value r.base s.base,
    v.nonempty,
    c.1.nonempty,
    find-insert r d (end s) m n v c.2,
  )

  module _ (b : Bus A D) (r : BusRange A) (d : D) (v : IsValid b) (w : Range.IsValid r) where
    no_overlap_iff : (overlaps_any r (keys b.devices) ≡ false) ↔ IsFree b r
    unfolding view
    no_overlap_iff = (
      λ e n h. free_of_no_overlap r 0 b.devices n w v.chain e h,
      λ h. no_overlap_of_free r 0 b.devices w v.chain h,
    )

    -- `register` succeeds exactly if no address of the range is taken. This is for a valid bus and
    -- a valid range.
    pub register-ok_iff : ((register b r d).1 ≡ ok tt) ↔ IsFree b r
    unfolding register
    register-ok_iff = elim (Bool-cases (overlaps_any r (keys b.devices))) [
      | inl taken ↦ (λ e. absurd (ground arith), λ h. absurd (ground (arith, no_overlap_iff.1 h)))
      | inr free ↦ (λ e. no_overlap_iff.0 free, λ h. rw free)
    ]

    pub register-overlap : (register b r d).1 ≢ ok tt → register b r d ≡ (b, err device_overlap)
    unfolding register
    register-overlap h = ground arith

    -- `register` reports an overlap, with the bus as it was, exactly if some address of the range has
    -- an entry. This is for a valid bus and a valid range.
    pub register-overlap_iff :
        (register b r d ≡ (b, err device_overlap))
        ↔ ((n : ℕ) × (e : BusRange A × D) × Contains r n × (view b n ≡ some e))
    unfolding register view
    register-overlap_iff = elim (Bool-cases (overlaps_any r (keys b.devices))) [
      | inl taken ↦ (λ e. taken_of_overlap r 0 b.devices w v.chain taken, λ h. rw taken refl)
      | inr free ↦ (
        λ e. absurd (ground arith),
        λ (n, e, within, at). absurd (ground (arith, no_overlap_iff.0 free n)),
      )
    ]

    -- `register` of a valid range keeps a valid bus valid, whether it succeeds or not.
    pub register-IsValid : IsValid (register b r d).0
    unfolding register
    register-IsValid = ground (arith, insert-Chain r d 0 b.devices w)

    -- After a `register` of a valid range that succeeds on a valid bus, the addresses of the range
    -- read as the new entry, and all others as before.
    pub view-register :
        (register b r d).1 ≡ ok tt
        → (n : ℕ) → view (register b r d).0 n ≡ (if contains r n then some (r, d) else view b n)
    unfolding register view
    view-register e n = ground (arith, find-insert r d 0 b.devices n w v.chain)
