-- ===== src/Manager/History.antt =====
-- src/device_manager.rs: any sequence of registrations, deregistrations and lookups on an
-- `IoManager`, where calls on the two buses take turns in any order.
use mathlib.Core.List.{filter_map}
use vm_device.Prelude.{◌≡◌, refl, ap, List, [], ◌∷◌, Option, none, some, All, ◌⊎◌, inl, inr}
use vm_device.Address.Mmio.{MmioAddress, mmio_address}
use vm_device.Address.Pio.{PioAddress, pio_address}
use vm_device.Range.{BusRange}
use vm_device.Bus.View.{view}
use vm_device.Bus.History.{
  Call, Reply, registers, deregisters, looks_up, registered, deregistered, looked_up, run, step,
  SpecRun, IsValidCall, run-SpecRun,
}
use vm_device.Manager.{
  IoManager, pio_manager, mmio_manager, register_pio, register_mmio, deregister_pio,
  deregister_mmio, pio_device, mmio_device,
}
use vm_device.Manager.Outcomes.{IsValidManager}

pub data IoCall (P M : Type 0) : Type 0 where
  registers_pio : BusRange PioAddress → P → IoCall P M
  deregisters_pio : PioAddress → IoCall P M
  looks_up_pio : PioAddress → IoCall P M
  registers_mmio : BusRange MmioAddress → M → IoCall P M
  deregisters_mmio : MmioAddress → IoCall P M
  looks_up_mmio : MmioAddress → IoCall P M

-- A reply of either bus.
abbrev pub IoReply : Type 0 → Type 0 → Type 0
IoReply P M = Reply PioAddress P ⊎ Reply MmioAddress M

module _ {P M : Type 0} where
  unfoldable pub io_step : IoManager P M → IoCall P M → IoManager P M × IoReply P M
  io_step t (registers_pio r d) =
      let (t', x) = register_pio pio_manager t r d in (t', inl (registered x))
  io_step t (deregisters_pio addr) =
      let (t', x) = deregister_pio pio_manager t addr in (t', inl (deregistered x))
  io_step t (looks_up_pio addr) = (t, inl (looked_up (pio_device pio_manager t addr)))
  io_step t (registers_mmio r d) =
      let (t', x) = register_mmio mmio_manager t r d in (t', inr (registered x))
  io_step t (deregisters_mmio addr) =
      let (t', x) = deregister_mmio mmio_manager t addr in (t', inr (deregistered x))
  io_step t (looks_up_mmio addr) = (t, inr (looked_up (mmio_device mmio_manager t addr)))

  unfoldable pub io_run : IoManager P M → List (IoCall P M) → IoManager P M × List (IoReply P M)
  io_run t [] = (t, [])
  io_run t (c ∷ cs) = let (t', x) = io_step t c in let (t'', xs) = io_run t' cs in (t'', x ∷ xs)

  -- The calls that go to one of the buses, and the replies that come from it.
  abbrev pub pio_call : IoCall P M → Option (Call PioAddress P)
  pio_call (registers_pio r d) = some (registers r d)
  pio_call (deregisters_pio addr) = some (deregisters addr)
  pio_call (looks_up_pio addr) = some (looks_up addr)
  pio_call _ = none

  abbrev pub mmio_call : IoCall P M → Option (Call MmioAddress M)
  mmio_call (registers_mmio r d) = some (registers r d)
  mmio_call (deregisters_mmio addr) = some (deregisters addr)
  mmio_call (looks_up_mmio addr) = some (looks_up addr)
  mmio_call _ = none

  abbrev pub pio_reply : IoReply P M → Option (Reply PioAddress P)
  pio_reply (inl x) = some x
  pio_reply (inr x) = none

  abbrev pub mmio_reply : IoReply P M → Option (Reply MmioAddress M)
  mmio_reply (inl x) = none
  mmio_reply (inr x) = some x

  io_run-pio :
      (t : IoManager P M) (cs : List (IoCall P M))
      → let (t', xs) = io_run t cs in
        run ⦃o = pio_address⦄ t.pio_bus (filter_map pio_call cs)
        ≡ (t'.pio_bus, filter_map pio_reply xs)
  unfolding io_run io_step run step filter_map register_pio deregister_pio pio_device register_mmio
      deregister_mmio mmio_device pio_manager mmio_manager
  io_run-pio t [] = refl
  io_run-pio t (registers_pio r d ∷ cs) =
      ap (λ p. (p.0, (step ⦃o = pio_address⦄ t.pio_bus (registers r d)).1 ∷ p.1))
        (io_run-pio (io_step t (registers_pio r d)).0 cs)
  io_run-pio t (deregisters_pio addr ∷ cs) =
      ap (λ p. (p.0, (step ⦃o = pio_address⦄ t.pio_bus (deregisters addr)).1 ∷ p.1))
        (io_run-pio (io_step t (deregisters_pio addr)).0 cs)
  io_run-pio t (looks_up_pio addr ∷ cs) =
      ap (λ p. (p.0, (step ⦃o = pio_address⦄ t.pio_bus (looks_up addr)).1 ∷ p.1)) (io_run-pio t cs)
  io_run-pio t (registers_mmio r d ∷ cs) = io_run-pio (io_step t (registers_mmio r d)).0 cs
  io_run-pio t (deregisters_mmio addr ∷ cs) = io_run-pio (io_step t (deregisters_mmio addr)).0 cs
  io_run-pio t (looks_up_mmio addr ∷ cs) = io_run-pio t cs

  io_run-mmio :
      (t : IoManager P M) (cs : List (IoCall P M))
      → let (t', xs) = io_run t cs in
        run ⦃o = mmio_address⦄ t.mmio_bus (filter_map mmio_call cs)
        ≡ (t'.mmio_bus, filter_map mmio_reply xs)
  unfolding io_run io_step run step filter_map register_pio deregister_pio pio_device register_mmio
      deregister_mmio mmio_device pio_manager mmio_manager
  io_run-mmio t [] = refl
  io_run-mmio t (registers_mmio r d ∷ cs) =
      ap (λ p. (p.0, (step ⦃o = mmio_address⦄ t.mmio_bus (registers r d)).1 ∷ p.1))
        (io_run-mmio (io_step t (registers_mmio r d)).0 cs)
  io_run-mmio t (deregisters_mmio addr ∷ cs) =
      ap (λ p. (p.0, (step ⦃o = mmio_address⦄ t.mmio_bus (deregisters addr)).1 ∷ p.1))
        (io_run-mmio (io_step t (deregisters_mmio addr)).0 cs)
  io_run-mmio t (looks_up_mmio addr ∷ cs) =
      ap (λ p. (p.0, (step ⦃o = mmio_address⦄ t.mmio_bus (looks_up addr)).1 ∷ p.1))
        (io_run-mmio t cs)
  io_run-mmio t (registers_pio r d ∷ cs) = io_run-mmio (io_step t (registers_pio r d)).0 cs
  io_run-mmio t (deregisters_pio addr ∷ cs) = io_run-mmio (io_step t (deregisters_pio addr)).0 cs
  io_run-mmio t (looks_up_pio addr ∷ cs) = io_run-mmio t cs

  -- The buses of a manager do not disturb each other: from a valid manager, any sequence of calls
  -- that registers valid ranges leaves a valid manager, and the calls that go to one bus, with the
  -- replies that come from it, are a run that the specification of a bus allows, whatever calls to
  -- the other bus stand between them.
  pub io_run-SpecRun :
      (t : IoManager P M) (cs : List (IoCall P M))
      → IsValidManager t
      → All (IsValidCall ⦃o = pio_address⦄) (filter_map pio_call cs)
      → All (IsValidCall ⦃o = mmio_address⦄) (filter_map mmio_call cs)
      → let (t', xs) = io_run t cs in
        IsValidManager t'
        × SpecRun ⦃o = pio_address⦄
            (view ⦃o = pio_address⦄ t.pio_bus)
            (filter_map pio_call cs)
            (view ⦃o = pio_address⦄ t'.pio_bus)
            (filter_map pio_reply xs)
        × SpecRun ⦃o = mmio_address⦄
            (view ⦃o = mmio_address⦄ t.mmio_bus)
            (filter_map mmio_call cs)
            (view ⦃o = mmio_address⦄ t'.mmio_bus)
            (filter_map mmio_reply xs)
  io_run-SpecRun t cs v h k =
      let on_pio = run-SpecRun ⦃o = pio_address⦄ t.pio_bus (filter_map pio_call cs) v.pio h in
      let on_mmio = run-SpecRun ⦃o = mmio_address⦄ t.mmio_bus (filter_map mmio_call cs) v.mmio k in
      let (pio, pio_replies) = rw io_run-pio at on_pio in
      let (mmio, mmio_replies) = rw io_run-mmio at on_mmio in
      (record { pio = pio; mmio = mmio }, pio_replies, mmio_replies)
