-- ===== src/Manager/Dispatch.antt =====
-- src/device_manager.rs: which device a read or a write reaches, and what it is told.
use vm_device.Prelude.{
  ℕ, ◌≤◌, ◌<◌, ◌+◌, ◌≡◌, ◌∙◌, ap, refl, List, some, arith, Outcome, done, Result, err, length,
  Result-cases, inl, inr,
}
use vm_device.Address.{BusAddress}
use vm_device.Address.Laws.{sub-eq}
use vm_device.Range.{BusRange}
use vm_device.Bus.{Bus, check_access}
use vm_device.Bus.Errors
use vm_device.Bus.View.{find-bounds, IsValid, view}
use vm_device.Bus.Access.{check_access-ok_iff, access_granted}
use vm_device.Device.{Device}
use vm_device.Manager.{returned, and_then_call, bus_read, bus_write}

module _ {A D : Type 0} ⦃o : BusAddress A⦄ (b : Bus A D) (addr : A) where
  open o use {value}

  -- The access of the given length is not empty, and each of its addresses lies in the entry.
  abbrev pub Covers : BusRange A → D → ℕ → Type 0
  Covers r d len =
      (0 < len) × ((n : ℕ) → value addr ≤ n → n < value addr + len → view b n ≡ some (r, d))

  offset_inside :
      (r : BusRange A) (d : D) (len : ℕ)
      → IsValid b
      → Covers r d len
      → (value r.base + o.sub addr r.base ≡ value addr) × (o.sub addr r.base + len ≤ r.size)
  unfolding view
  offset_inside r d len v c =
      let granted = (check_access-ok_iff b addr len v r d).1 c in
      let (_, found, inside) = access_granted b addr len v r d granted in
      let (_, valid, bounds) = find-bounds (value addr) 0 b.devices r d v.chain found in
      omega (arith, sub-eq addr r.base, valid.fits)

module _ {A D W : Type 0} ⦃o : BusAddress A⦄ ⦃dev : Device A W D⦄ (b : Bus A D) (addr : A)
    (v : IsValid b) (w : W) where
  open o use {value}

  refused {ℓ} :
      {X : Type ℓ} (len : ℕ)
      → ¬ ((r : BusRange A) × (d : D) × Covers b addr r d len)
      → (f : Result (BusRange A × D) Errors.Error → Outcome (Result X Errors.Error) × W)
      → ((e : Errors.Error) → f (err e) ≡ (done (err e), w))
      → (e : Errors.Error) × (f (check_access b addr len) ≡ (done (err e), w))
  refused len h f same = elim (Result-cases (check_access b addr len)) [
    | inl ((r, d), e) ↦ absurd (h (r, d, (check_access-ok_iff b addr len v r d).0 e))
    | inr (x, e) ↦ (x, ap f e ∙ same x)
  ]

  -- Where each address of a read lies in one entry of a valid bus, the read is one call of its
  -- device, with the base of the range, the offset of the address in it and the buffer; the read lies
  -- inside the range.
  pub bus_read_covered :
      (r : BusRange A) (d : D) (buffer : List ℕ)
      → Covers b addr r d (length buffer)
      → (offset : ℕ) × (value r.base + offset ≡ value addr)
        × (offset + length buffer ≤ r.size)
        × (bus_read b addr buffer w ≡ returned (dev.read d r.base offset buffer w))
  unfolding bus_read
  bus_read_covered r d buffer c =
      let (sum, inside) = offset_inside b addr r d (length buffer) v c in
      let granted = (check_access-ok_iff b addr (length buffer) v r d).1 c in
      (o.sub addr r.base, sum, inside, rw granted)

  -- Where no entry of a valid bus covers the read, no device is called: the read returns an error,
  -- and the world is as it was.
  pub bus_read_refused :
      (buffer : List ℕ)
      → ¬ ((r : BusRange A) × (d : D) × Covers b addr r d (length buffer))
      → (e : Errors.Error) × (bus_read b addr buffer w ≡ (done (err e), w))
  unfolding bus_read
  bus_read_refused buffer h =
      refused (length buffer) h
        (λ c. and_then_call c (λ r d. dev.read d r.base (o.sub addr r.base) buffer) w) (λ e. refl)

  -- Where each address of a write lies in one entry of a valid bus, the write is one call of its
  -- device, with the base of the range, the offset of the address in it and the bytes; the write lies
  -- inside the range.
  pub bus_write_covered :
      (r : BusRange A) (d : D) (buffer : List ℕ)
      → Covers b addr r d (length buffer)
      → (offset : ℕ) × (value r.base + offset ≡ value addr)
        × (offset + length buffer ≤ r.size)
        × (bus_write b addr buffer w ≡ returned (dev.write d r.base offset buffer w))
  unfolding bus_write
  bus_write_covered r d buffer c =
      let (sum, inside) = offset_inside b addr r d (length buffer) v c in
      let granted = (check_access-ok_iff b addr (length buffer) v r d).1 c in
      (o.sub addr r.base, sum, inside, rw granted)

  -- Where no entry of a valid bus covers the write, no device is called: the write returns an
  -- error, and the world is as it was.
  pub bus_write_refused :
      (buffer : List ℕ)
      → ¬ ((r : BusRange A) × (d : D) × Covers b addr r d (length buffer))
      → (e : Errors.Error) × (bus_write b addr buffer w ≡ (done (err e), w))
  unfolding bus_write
  bus_write_refused buffer h =
      refused (length buffer) h
        (λ c. and_then_call c (λ r d. dev.write d r.base (o.sub addr r.base) buffer) w) (λ e. refl)
