-- ===== src/Manager.antt =====
-- src/device_manager.rs: the traits `PioManager` and `MmioManager`, which any type with a bus
-- implements, and `IoManager`, which has one bus of each kind.
pub mod Resourceful
pub mod Traits
pub mod Dispatch
pub mod Overflow
pub mod Ranges
pub mod Registration
pub mod Outcomes
pub mod RoundTrip
pub mod Shared
pub mod History
pub mod Machine
pub mod Concurrent
pub mod Display
pub mod UnitTests
pub mod DocTests
mod Tests
use vm_device.Prelude.{ℕ, ◌≡◌, refl, List, Option, Outcome, done, panic, Result, ok, err, length}
use vm_device.Address.{BusAddress}
use vm_device.Address.Mmio.{MmioAddress, mmio_address}
use vm_device.Address.Pio.{PioAddress, pio_address}
use vm_device.Range.{BusRange}
use vm_device.Bus
use vm_device.Bus.{Bus, device, register, deregister, check_access}
use vm_device.Bus.Errors
use vm_device.Device.{Device, DevicePio, DeviceMmio}

-- Errors of `IoManager`.
pub data Error : Type 0 where
  bus : Errors.Error → Error

-- The trait `BusManager`: a mutable reference to the bus is read by `bus` and written by
-- `with_bus`.
pub record BusManager (T A D : Type 0) : Type 0 where
  pub bus : T → Bus A D
  pub with_bus : T → Bus A D → T
  pub bus-with_bus : (t : T) (b : Bus A D) → bus (with_bus t b) ≡ b
  pub with_bus_same : (t : T) → with_bus t (bus t) ≡ t
  pub with_bus_twice : (t : T) (b c : Bus A D) → with_bus (with_bus t b) c ≡ with_bus t c

-- A device call that returns gives an `Ok`, one that panics ends the caller too.
abbrev pub returned {ℓ} :
    {W : Type 0} {X : Type ℓ} → Outcome X × W → Outcome (Result X Errors.Error) × W
returned p = (elim p.0 [ done y ↦ done (ok y) | panic ↦ panic ], p.1)

-- `map` on the result of an access check, with a device call that may panic.
abbrev pub and_then_call {ℓ} :
    {A D W : Type 0} {X : Type ℓ}
    → Result (BusRange A × D) Errors.Error
    → (BusRange A → D → W → Outcome X × W)
    → W
    → Outcome (Result X Errors.Error) × W
and_then_call (err e) call w = (done (err e), w)
and_then_call (ok (range, d)) call w = returned (call range d w)

-- The bodies that the two traits share, with the address type as a parameter.
module _ {A D W : Type 0} ⦃o : BusAddress A⦄ ⦃dev : Device A W D⦄ where
  unfoldable pub bus_read : Bus A D → A → List ℕ → W → Outcome (Result (List ℕ) Errors.Error) × W
  bus_read b addr buffer =
      and_then_call (check_access b addr (length buffer))
        (λ range d. dev.read d range.base (o.sub addr range.base) buffer)

  unfoldable pub bus_write : Bus A D → A → List ℕ → W → Outcome (Result (Unit {0}) Errors.Error) × W
  bus_write b addr buffer =
      and_then_call (check_access b addr (length buffer))
        (λ range d. dev.write d range.base (o.sub addr range.base) buffer)

module _ {T D : Type 0} (m : BusManager T PioAddress D) where
  unfoldable pub pio_device : T → PioAddress → Option (BusRange PioAddress × D)
  pio_device t addr = device (m.bus t) addr

  unfoldable pub register_pio : T → BusRange PioAddress → D → T × Result (Unit {0}) Errors.Error
  register_pio t range d = let (b, x) = register (m.bus t) range d in (m.with_bus t b, x)

  unfoldable pub deregister_pio : T → PioAddress → T × Option (BusRange PioAddress × D)
  deregister_pio t addr = let (b, x) = deregister (m.bus t) addr in (m.with_bus t b, x)

module _ {T D W : Type 0} (m : BusManager T PioAddress D) ⦃dev : DevicePio W D⦄ where
  unfoldable pub pio_read : T → PioAddress → List ℕ → W → Outcome (Result (List ℕ) Errors.Error) × W
  unfolding bus_read
  pio_read t = bus_read (m.bus t)

  unfoldable pub pio_write :
      T → PioAddress → List ℕ → W → Outcome (Result (Unit {0}) Errors.Error) × W
  unfolding bus_write
  pio_write t = bus_write (m.bus t)

module _ {T D : Type 0} (m : BusManager T MmioAddress D) where
  unfoldable pub mmio_device : T → MmioAddress → Option (BusRange MmioAddress × D)
  mmio_device t addr = device (m.bus t) addr

  unfoldable pub register_mmio : T → BusRange MmioAddress → D → T × Result (Unit {0}) Errors.Error
  register_mmio t range d = let (b, x) = register (m.bus t) range d in (m.with_bus t b, x)

  unfoldable pub deregister_mmio : T → MmioAddress → T × Option (BusRange MmioAddress × D)
  deregister_mmio t addr = let (b, x) = deregister (m.bus t) addr in (m.with_bus t b, x)

module _ {T D W : Type 0} (m : BusManager T MmioAddress D) ⦃dev : DeviceMmio W D⦄ where
  unfoldable pub mmio_read :
      T → MmioAddress → List ℕ → W → Outcome (Result (List ℕ) Errors.Error) × W
  unfolding bus_read
  mmio_read t = bus_read (m.bus t)

  unfoldable pub mmio_write :
      T → MmioAddress → List ℕ → W → Outcome (Result (Unit {0}) Errors.Error) × W
  unfolding bus_write
  mmio_write t = bus_write (m.bus t)

-- `P` and `M` are the shared references to devices, `Arc<dyn DevicePio>` and `Arc<dyn DeviceMmio>`.
pub record IoManager (P M : Type 0) : Type 0 where
  pub pio_bus : Bus PioAddress P
  pub mmio_bus : Bus MmioAddress M

module _ {P M : Type 0} where
  unfoldable pub new : IoManager P M
  new = record { pio_bus = Bus.new; mmio_bus = Bus.new }

  unfoldable pub pio_manager : BusManager (IoManager P M) PioAddress P
  pio_manager = record {
    bus = λ t. t.pio_bus;
    with_bus = λ t b. record t { pio_bus = b };
    bus-with_bus = λ t b. refl;
    with_bus_same = λ t. refl;
    with_bus_twice = λ t b c. refl;
  }

  unfoldable pub mmio_manager : BusManager (IoManager P M) MmioAddress M
  mmio_manager = record {
    bus = λ t. t.mmio_bus;
    with_bus = λ t b. record t { mmio_bus = b };
    bus-with_bus = λ t b. refl;
    with_bus_same = λ t. refl;
    with_bus_twice = λ t b c. refl;
  }
