-- ===== src/Manager/Machine/Spec.antt =====
-- src/device_manager.rs: what a manager promises, told by a function from addresses to entries for
-- each bus, and the world of the devices.
use vm_device.Prelude.{
  ℕ, ◌+◌, ◌-◌, ◌≡◌, ◌≢◌, ◌⊎◌, List, [], ◌∷◌, Option, Outcome, done, Result, ok, inl, inr, length,
  if◌then◌else◌,
}
use vm_device.Address.{BusAddress}
use vm_device.Address.Mmio.{MmioAddress, mmio_address}
use vm_device.Address.Pio.{PioAddress, pio_address}
use vm_device.Range.{BusRange}
use vm_device.Bus.Errors
use vm_device.Bus.View.{view}
use vm_device.Bus.History.{
  Call, Reply, registers, deregisters, looks_up, deregistered, access_reply, IsValidCall,
}
use vm_device.Bus.History
use vm_device.Device.{DevicePio, DeviceMmio}
use vm_device.Manager.{Error, and_then_call}
use vm_device.Manager.Resourceful.{is_some}
use vm_device.Manager.Ranges.{pio_ranges, mmio_ranges}
use vm_device.Manager.Registration.{Ends}
use vm_device.Manager.Outcomes.{IsSizedResources}
use vm_device.Manager.History.{
  IoCall, registers_pio, deregisters_pio, looks_up_pio, registers_mmio, deregisters_mmio,
  looks_up_mmio,
}
use vm_device.Manager.Machine.{
  MachineCall, on_buses, reads_pio, writes_pio, reads_mmio, writes_mmio, registers_pio_resources,
  registers_mmio_resources, registers_resources, deregisters_resources, MachineReply, by_bus, read,
  written, entered, removed, Machine,
}

pub record Views (P M W : Type 0) : Type 0 where
  pub pio : ℕ → Option (BusRange PioAddress × P)
  pub mmio : ℕ → Option (BusRange MmioAddress × M)
  pub world : W

abbrev pub views : {P M W : Type 0} → Machine P M W → Views P M W
views m = record {
  pio = view ⦃o = pio_address⦄ m.manager.pio_bus;
  mmio = view ⦃o = mmio_address⦄ m.manager.mmio_bus;
  world = m.world;
}

-- An access goes to the entry of its first address, with the distance from the base of the entry's
-- range, if the entry grants it; else it is an error.
abbrev pub access {ℓ} :
    {A D W : Type 0} {X : Type ℓ} ⦃o : BusAddress A⦄
    → (ℕ → Option (BusRange A × D))
    → A
    → ℕ
    → (BusRange A → D → ℕ → W → Outcome X × W)
    → W
    → Outcome (Result X Errors.Error) × W
access ⦃o⦄ f addr len call =
    and_then_call (access_reply f addr len) (λ r d. call r d (o.value addr - o.value r.base))

-- Deregistrations at each base in turn, with the number of those that found an entry.
abbrev pub Removes :
    {A D : Type 0} ⦃o : BusAddress A⦄
    → (ℕ → Option (BusRange A × D))
    → List (A × ℕ)
    → (ℕ → Option (BusRange A × D))
    → ℕ
    → Type 0
Removes f [] g n = (g ≡ f) × (n ≡ 0)
Removes {A} {D} f ((base, _) ∷ rs) g n =
    (h : ℕ → Option (BusRange A × D)) × (x : Option (BusRange A × D)) × (k : ℕ) × History.Spec f
      (deregisters base) h (deregistered x)
    × Removes h rs g k
    × (n ≡ (if is_some x then k + 1 else k))

module _ {P M W : Type 0} where
  -- A call on one bus leaves the other, and calls no device.
  abbrev pub OnPio : Views P M W → Call PioAddress P → Views P M W → MachineReply P M → Type 0
  OnPio s c s' y =
      (x : Reply PioAddress P) × History.Spec ⦃o = pio_address⦄ s.pio c s'.pio x
      × (s'.mmio ≡ s.mmio)
      × (s'.world ≡ s.world)
      × (y ≡ by_bus (inl x))

  abbrev pub OnMmio : Views P M W → Call MmioAddress M → Views P M W → MachineReply P M → Type 0
  OnMmio s c s' y =
      (x : Reply MmioAddress M) × History.Spec ⦃o = mmio_address⦄ s.mmio c s'.mmio x
      × (s'.pio ≡ s.pio)
      × (s'.world ≡ s.world)
      × (y ≡ by_bus (inr x))

  abbrev pub OnBuses : Views P M W → IoCall P M → Views P M W → MachineReply P M → Type 0
  OnBuses s (registers_pio r d) = OnPio s (registers r d)
  OnBuses s (deregisters_pio addr) = OnPio s (deregisters addr)
  OnBuses s (looks_up_pio addr) = OnPio s (looks_up addr)
  OnBuses s (registers_mmio r d) = OnMmio s (registers r d)
  OnBuses s (deregisters_mmio addr) = OnMmio s (deregisters addr)
  OnBuses s (looks_up_mmio addr) = OnMmio s (looks_up addr)

module _ {P M S W : Type 0} ⦃pio : DevicePio W P⦄ ⦃mmio : DeviceMmio W M⦄ (as_mmio : S → M)
    (as_pio : S → P) where
  -- What a call may do, and what it then replies.
  abbrev pub MachineSpec : Views P M W → MachineCall P M S → Views P M W → MachineReply P M → Type 0
  MachineSpec s (on_buses c) s' y = OnBuses s c s' y
  MachineSpec s (reads_pio addr buffer) s' y =
      let (x, w) =
        access ⦃o = pio_address⦄ s.pio addr (length buffer)
          (λ r d offset. pio.read d r.base offset buffer) s.world in
      (s' ≡ record s { world = w }) × (y ≡ read x)
  MachineSpec s (writes_pio addr bytes) s' y =
      let (x, w) =
        access ⦃o = pio_address⦄ s.pio addr (length bytes)
          (λ r d offset. pio.write d r.base offset bytes) s.world in
      (s' ≡ record s { world = w }) × (y ≡ written x)
  MachineSpec s (reads_mmio addr buffer) s' y =
      let (x, w) =
        access ⦃o = mmio_address⦄ s.mmio addr (length buffer)
          (λ r d offset. mmio.read d r.base offset buffer) s.world in
      (s' ≡ record s { world = w }) × (y ≡ read x)
  MachineSpec s (writes_mmio addr bytes) s' y =
      let (x, w) =
        access ⦃o = mmio_address⦄ s.mmio addr (length bytes)
          (λ r d offset. mmio.write d r.base offset bytes) s.world in
      (s' ≡ record s { world = w }) × (y ≡ written x)
  MachineSpec s (registers_pio_resources d rs) s' y =
      (x : Outcome (Result (Unit {0}) Error)) × Ends ⦃o = pio_address⦄ s.pio d (pio_ranges rs)
        s'.pio x
      × (s'.mmio ≡ s.mmio)
      × (s'.world ≡ s.world)
      × (y ≡ entered x)
  MachineSpec s (registers_mmio_resources d rs) s' y =
      (x : Outcome (Result (Unit {0}) Error)) × Ends ⦃o = mmio_address⦄ s.mmio d (mmio_ranges rs)
        s'.mmio x
      × (s'.pio ≡ s.pio)
      × (s'.world ≡ s.world)
      × (y ≡ entered x)
  -- The PIO ranges follow if all MMIO ranges are registered.
  MachineSpec s (registers_resources d rs) s' y =
      (x : Outcome (Result (Unit {0}) Error)) × Ends ⦃o = mmio_address⦄ s.mmio (as_mmio d)
        (mmio_ranges rs) s'.mmio x
      × (s'.world ≡ s.world)
      × (((x ≡ done (ok tt))
            × (z : Outcome (Result (Unit {0}) Error)) × Ends ⦃o = pio_address⦄ s.pio (as_pio d)
                (pio_ranges rs) s'.pio z
            × (y ≡ entered z))
          ⊎ ((x ≢ done (ok tt)) × (s'.pio ≡ s.pio) × (y ≡ entered x)))
  MachineSpec s (deregisters_resources rs) s' y =
      (n : ℕ) × (k : ℕ) × Removes ⦃o = pio_address⦄ s.pio (pio_ranges rs) s'.pio n
      × Removes ⦃o = mmio_address⦄ s.mmio (mmio_ranges rs) s'.mmio k
      × (s'.world ≡ s.world)
      × (y ≡ removed (n + k))

  -- A sequence of such calls, with one reply for each.
  abbrev pub MachineSpecRun :
      Views P M W → List (MachineCall P M S) → Views P M W → List (MachineReply P M) → Type 0
  MachineSpecRun s [] s' [] = s' ≡ s
  MachineSpecRun s [] s' (y ∷ ys) = ⊥
  MachineSpecRun s (c ∷ cs) s' [] = ⊥
  MachineSpecRun s (c ∷ cs) s' (y ∷ ys) =
      (t : Views P M W) × MachineSpec s c t y × MachineSpecRun t cs s' ys

-- The ranges that are registered are valid, and the sizes in resources fit their types.
abbrev pub IsValidMachineCall : {P M S : Type 0} → MachineCall P M S → Type 0
IsValidMachineCall (on_buses (registers_pio r d)) = IsValidCall ⦃o = pio_address⦄ (registers r d)
IsValidMachineCall (on_buses (registers_mmio r d)) = IsValidCall ⦃o = mmio_address⦄ (registers r d)
IsValidMachineCall (registers_pio_resources d rs) = IsSizedResources rs
IsValidMachineCall (registers_mmio_resources d rs) = IsSizedResources rs
IsValidMachineCall (registers_resources d rs) = IsSizedResources rs
IsValidMachineCall _ = Unit
