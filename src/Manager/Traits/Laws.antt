-- ===== src/Manager/Traits/Laws.antt =====
-- src/device_manager.rs: the methods that a type with a bus gets from the traits, against the bus
-- alone.
use vm_device.Prelude.{◌≡◌, ◌∙◌, ap, sym, refl, List, [], ◌∷◌, map, All}
use vm_device.Address.{BusAddress}
use vm_device.Address.Mmio.{MmioAddress, mmio_address}
use vm_device.Address.Pio.{PioAddress, pio_address}
use vm_device.Range.{BusRange}
use vm_device.Bus.View.{IsValid, view}
use vm_device.Bus.History
use vm_device.Bus.History.{
  Call, Reply, registered, deregistered, looked_up, step, run, SpecRun, IsValidCall, run-SpecRun,
}
use vm_device.Device.{DevicePio, DeviceMmio}
use vm_device.Manager.{
  BusManager, pio_device, register_pio, deregister_pio, mmio_device, register_mmio, deregister_mmio,
}
use vm_device.Manager.Traits.{PioManager, MmioManager, implement_pio, implement_mmio}

-- A call of a method that does not call a device.
pub data TraitCall (A D : Type 0) : Type 0 where
  registers : BusRange A → D → TraitCall A D
  deregisters : A → TraitCall A D
  looks_up : A → TraitCall A D

abbrev pub on_bus : {A D : Type 0} → TraitCall A D → Call A D
on_bus (registers r d) = History.registers r d
on_bus (deregisters addr) = History.deregisters addr
on_bus (looks_up addr) = History.looks_up addr

-- Calls one after the other, with their replies.
abbrev pub run_by : {T C Y : Type 0} → (T → C → T × Y) → T → List C → T × List Y
run_by call t [] = (t, [])
run_by call t (c ∷ cs) =
    let (t', x) = call t c in let (t'', xs) = run_by call t' cs in (t'', x ∷ xs)

module _ {T D W : Type 0} where
  abbrev pub pio_call : PioManager T D W → T → TraitCall PioAddress D → T × Reply PioAddress D
  pio_call m t (registers r d) = let (t', x) = m.register_pio t r d in (t', registered x)
  pio_call m t (deregisters addr) = let (t', x) = m.deregister_pio t addr in (t', deregistered x)
  pio_call m t (looks_up addr) = (t, looked_up (m.pio_device t addr))

  abbrev pub mmio_call : MmioManager T D W → T → TraitCall MmioAddress D → T × Reply MmioAddress D
  mmio_call m t (registers r d) = let (t', x) = m.register_mmio t r d in (t', registered x)
  mmio_call m t (deregisters addr) = let (t', x) = m.deregister_mmio t addr in (t', deregistered x)
  mmio_call m t (looks_up addr) = (t, looked_up (m.mmio_device t addr))

module _ {T A D : Type 0} ⦃o : BusAddress A⦄ (m : BusManager T A D)
    (call : T → TraitCall A D → T × Reply A D)
    (same : (t : T) (c : TraitCall A D)
      → let (b, x) = step (m.bus t) (on_bus c) in call t c ≡ (m.with_bus t b, x)) where
  -- A method that works on the bus alone does so in any sequence of calls.
  run_by-run :
      (t : T) (cs : List (TraitCall A D))
      → let (b, xs) = run (m.bus t) (map on_bus cs) in run_by call t cs ≡ (m.with_bus t b, xs)
  unfolding run
  run_by-run t [] = ap (λ t'. (t', [])) (sym (m.with_bus_same t))
  run_by-run t (c ∷ cs) =
      let (b, x) = step (m.bus t) (on_bus c) in
      let after = m.with_bus t b in
      let b' = (run b (map on_bus cs)).0 in
      ap (λ p. let (t', xs') = run_by call p.0 cs in (t', p.1 ∷ xs')) (same t c)
      ∙ ap (λ p. (p.0, x ∷ p.1)) (run_by-run after cs)
      ∙ rw (m.bus-with_bus t b, m.with_bus_twice t b b') refl

-- How such a sequence of calls ends: the bus is valid, nothing else has changed, and the
-- specification of a bus allows the run.
abbrev pub Serves :
    {T A D : Type 0} ⦃o : BusAddress A⦄
    → BusManager T A D
    → T
    → List (TraitCall A D)
    → T × List (Reply A D)
    → Type 0
Serves m t cs (t', xs) =
    IsValid (m.bus t')
    × (t' ≡ m.with_bus t (m.bus t'))
    × SpecRun (view (m.bus t)) (map on_bus cs) (view (m.bus t')) xs

module _ {T A D : Type 0} ⦃o : BusAddress A⦄ (m : BusManager T A D)
    (call : T → TraitCall A D → T × Reply A D)
    (same : (t : T) (c : TraitCall A D)
      → let (b, x) = step (m.bus t) (on_bus c) in call t c ≡ (m.with_bus t b, x)) where
  run_by-Serves :
      (t : T) (cs : List (TraitCall A D))
      → IsValid (m.bus t)
      → All IsValidCall (map on_bus cs)
      → Serves m t cs (run_by call t cs)
  run_by-Serves t cs v h =
      let (valid, spec) = run-SpecRun (m.bus t) (map on_bus cs) v h in
      let b = (run (m.bus t) (map on_bus cs)).0 in
      rw (run_by-run m call same t cs, m.bus-with_bus t b) (valid, refl, spec)

module _ (W : Type 0) {T D : Type 0} where
  pio_call-step :
      ⦃dev : DevicePio W D⦄ (m : BusManager T PioAddress D) (t : T) (c : TraitCall PioAddress D)
      → let (b, x) = step ⦃o = pio_address⦄ (m.bus t) (on_bus c) in
        pio_call (implement_pio {W = W} ⦃m = m⦄) t c ≡ (m.with_bus t b, x)
  unfolding step implement_pio register_pio deregister_pio pio_device
  pio_call-step m t (registers r d) = refl
  pio_call-step m t (deregisters addr) = refl
  pio_call-step m t (looks_up addr) = rw (m.with_bus_same t) refl

  mmio_call-step :
      ⦃dev : DeviceMmio W D⦄ (m : BusManager T MmioAddress D) (t : T) (c : TraitCall MmioAddress D)
      → let (b, x) = step ⦃o = mmio_address⦄ (m.bus t) (on_bus c) in
        mmio_call (implement_mmio {W = W} ⦃m = m⦄) t c ≡ (m.with_bus t b, x)
  unfolding step implement_mmio register_mmio deregister_mmio mmio_device
  mmio_call-step m t (registers r d) = refl
  mmio_call-step m t (deregisters addr) = refl
  mmio_call-step m t (looks_up addr) = rw (m.with_bus_same t) refl

-- Any type with a PIO bus is a PIO manager, and any type with an MMIO bus is an MMIO manager: where
-- the bus is valid, any sequence of registrations of valid ranges, deregistrations and lookups by
-- the methods of the trait leaves a valid bus, changes nothing but the bus, and is a run that the
-- specification of a bus allows.
pub traits_run-Serves :
    (W : Type 0) {T U D E : Type 0} ⦃pio : DevicePio W D⦄ ⦃mmio : DeviceMmio W E⦄
    (p : BusManager T PioAddress D) (q : BusManager U MmioAddress E) (t : T) (u : U)
    (cs : List (TraitCall PioAddress D)) (ds : List (TraitCall MmioAddress E))
    → IsValid ⦃o = pio_address⦄ (p.bus t)
    → IsValid ⦃o = mmio_address⦄ (q.bus u)
    → All (IsValidCall ⦃o = pio_address⦄) (map on_bus cs)
    → All (IsValidCall ⦃o = mmio_address⦄) (map on_bus ds)
    → Serves ⦃o = pio_address⦄ p t cs (run_by (pio_call (implement_pio {W = W} ⦃m = p⦄)) t cs)
      × Serves ⦃o = mmio_address⦄ q u ds (run_by (mmio_call (implement_mmio {W = W} ⦃m = q⦄)) u ds)
traits_run-Serves W p q t u cs ds v w h k = (
  run_by-Serves ⦃o = pio_address⦄ p (pio_call (implement_pio {W = W} ⦃m = p⦄)) (pio_call-step W p) t
      cs v h,
  run_by-Serves ⦃o = mmio_address⦄ q (mmio_call (implement_mmio {W = W} ⦃m = q⦄))
      (mmio_call-step W q) u ds w k,
)
