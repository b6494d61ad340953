-- ===== src/Manager/Traits.antt =====
-- src/device_manager.rs: the traits `PioManager` and `MmioManager` as interfaces, and their
-- implementations for every type that implements `BusManager`.
pub mod Laws
use vm_device.Prelude.{ℕ, List, Option, Outcome, Result}
use vm_device.Address.Mmio.{MmioAddress}
use vm_device.Address.Pio.{PioAddress}
use vm_device.Range.{BusRange}
use vm_device.Bus.Errors.{Error}
use vm_device.Device.{DevicePio, DeviceMmio}
use vm_device.Manager
use vm_device.Manager.{BusManager}

-- The fields beside the methods are the type with the bus, its devices and their world.
pub record PioManager (T D W : Type 0) : Type 0 where
  pub pio_device : T → PioAddress → Option (BusRange PioAddress × D)
  pub pio_read : T → PioAddress → List ℕ → W → Outcome (Result (List ℕ) Error) × W
  pub pio_write : T → PioAddress → List ℕ → W → Outcome (Result (Unit {0}) Error) × W
  pub register_pio : T → BusRange PioAddress → D → T × Result (Unit {0}) Error
  pub deregister_pio : T → PioAddress → T × Option (BusRange PioAddress × D)

pub record MmioManager (T D W : Type 0) : Type 0 where
  pub mmio_device : T → MmioAddress → Option (BusRange MmioAddress × D)
  pub mmio_read : T → MmioAddress → List ℕ → W → Outcome (Result (List ℕ) Error) × W
  pub mmio_write : T → MmioAddress → List ℕ → W → Outcome (Result (Unit {0}) Error) × W
  pub register_mmio : T → BusRange MmioAddress → D → T × Result (Unit {0}) Error
  pub deregister_mmio : T → MmioAddress → T × Option (BusRange MmioAddress × D)

module _ {T D W : Type 0} where
  instance unfoldable pub implement_pio :
      ⦃m : BusManager T PioAddress D⦄ → ⦃dev : DevicePio W D⦄ → PioManager T D W
  implement_pio ⦃m⦄ = record {
    pio_device = Manager.pio_device m;
    pio_read = Manager.pio_read m;
    pio_write = Manager.pio_write m;
    register_pio = Manager.register_pio m;
    deregister_pio = Manager.deregister_pio m;
  }

  instance unfoldable pub implement_mmio :
      ⦃m : BusManager T MmioAddress D⦄ → ⦃dev : DeviceMmio W D⦄ → MmioManager T D W
  implement_mmio ⦃m⦄ = record {
    mmio_device = Manager.mmio_device m;
    mmio_read = Manager.mmio_read m;
    mmio_write = Manager.mmio_write m;
    register_mmio = Manager.register_mmio m;
    deregister_mmio = Manager.deregister_mmio m;
  }
