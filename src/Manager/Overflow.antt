-- ===== src/Manager/Overflow.antt =====
-- src/device_manager.rs: reads and writes in a build with overflow checks, where a difference that
-- does not fit its type is a panic.
pub mod Resources
pub mod Machine
use vm_device.Prelude.{
  ℕ, ◌≡◌, List, arith, Outcome, done, panic, Result, ok, err, length, Result-cases, inl, inr,
}
use vm_device.Address.{BusAddress}
use vm_device.Address.Overflow.{sub, sub-done}
use vm_device.Range.{BusRange}
use vm_device.Bus
use vm_device.Bus.{Bus}
use vm_device.Bus.Errors
use vm_device.Bus.Overflow.{check_access, check_access-done}
use vm_device.Bus.View.{find-bounds, IsValid, view}
use vm_device.Bus.Access.{access_granted}
use vm_device.Device.{Device}
use vm_device.Manager
use vm_device.Manager.{returned, and_then_call}

-- The closure that `map` gets: it computes the offset, and calls the device.
abbrev pub call_at_offset {ℓ} :
    {A W : Type 0} ⦃o : BusAddress A⦄ {X : Type ℓ}
    → A
    → A
    → (ℕ → W → Outcome X × W)
    → W
    → Outcome (Result X Errors.Error) × W
call_at_offset addr base call w = elim (sub addr base) [
  | panic ↦ (panic, w)
  | done offset ↦ returned (call offset w)
]

module _ {A D : Type 0} ⦃o : BusAddress A⦄ where
  -- The offset of an address in the range that a granted access gets.
  offset-done :
      (b : Bus A D) (addr : A) (len : ℕ) (r : BusRange A) (d : D)
      → IsValid b
      → Bus.check_access b addr len ≡ ok (r, d)
      → sub addr r.base ≡ done (o.sub addr r.base)
  unfolding view
  offset-done b addr len r d v e =
      let (_, found, _) = access_granted b addr len v r d e in
      let (_, valid, bounds) = find-bounds (o.value addr) 0 b.devices r d v.chain found in
      sub-done addr r.base (omega (arith, valid.fits)) bounds.0

module _ {A D W : Type 0} ⦃o : BusAddress A⦄ ⦃dev : Device A W D⦄ where
  unfoldable pub bus_read : Bus A D → A → List ℕ → W → Outcome (Result (List ℕ) Errors.Error) × W
  bus_read b addr buffer w = elim (check_access b addr (length buffer)) [
    | panic ↦ (panic, w)
    | done (err e) ↦ (done (err e), w)
    | done (ok (range, d)) ↦
        call_at_offset addr range.base (λ offset. dev.read d range.base offset buffer) w
  ]

  unfoldable pub bus_write : Bus A D → A → List ℕ → W → Outcome (Result (Unit {0}) Errors.Error) × W
  bus_write b addr buffer w = elim (check_access b addr (length buffer)) [
    | panic ↦ (panic, w)
    | done (err e) ↦ (done (err e), w)
    | done (ok (range, d)) ↦
        call_at_offset addr range.base (λ offset. dev.write d range.base offset buffer) w
  ]

  -- Overflow checks make no difference to an access: on a valid bus, a read and a write never panic
  -- for an overflow, and end as in a build in which arithmetic wraps around.
  pub accesses-same :
      (b : Bus A D) (addr : A) (buffer : List ℕ) (w : W)
      → IsValid b
      → (bus_read b addr buffer w ≡ Manager.bus_read b addr buffer w)
        × (bus_write b addr buffer w ≡ Manager.bus_write b addr buffer w)
  unfolding bus_read bus_write Manager.bus_read Manager.bus_write
  accesses-same b addr buffer w v =
      let checked = check_access-done b addr (length buffer) v in
      elim (Result-cases (Bus.check_access b addr (length buffer))) [
        | inl ((r, d), e) ↦
            let offset = offset-done b addr (length buffer) r d v e in (ground arith, ground arith)
        | inr (x, e) ↦ (ground arith, ground arith)
      ]
