-- ===== src/Manager/DocTests.antt =====
-- src/device_manager.rs and src/lib.rs: the programs in the documentation of the two modules, which
-- are run as tests.
use Prim.Native.String.{String, ◌++◌}
use vm_device.Prelude.{ℕ, ◌≡◌, refl, List, [], ◌∷◌, Outcome, done, false}
use vm_device.Prelude.Decimal.{decimal}
use vm_device.Prelude.Panic.{◌>>=◌, unwrap_ok}
use vm_device.Address.Mmio.{MmioAddress, mmio_address}
use vm_device.Address.Pio.{PioAddress, pio_address}
use vm_device.Range
use vm_device.BTreeMap.{insert, range_to_inclusive, nth_back}
use vm_device.Bus
use vm_device.Device.{Device, MutDevice}
use vm_device.Device.Arc.{Arc, arc_device}
use vm_device.Device.Arc
use vm_device.Device.Mutex.{Mutex, World, mutex_device, with_lock}
use vm_device.Device.Mutex
use vm_device.Resources.{mmio_address_range, pio_address_range}
use vm_device.Manager.{
  IoManager, new, pio_manager, mmio_manager, register_mmio, register_pio, mmio_write, pio_write,
}
use vm_device.Manager.Resourceful.{register_mmio_resources, register_pio_resources}

-- A device whose methods do nothing. There is one of it, and no world.
pub data NoopDevice : Type 0 where
  noop : NoopDevice

instance unfoldable pub noop_device : {A : Type 0} → Device A (Unit {0}) NoopDevice
noop_device = record {
  read = λ d base offset buffer w. (done buffer, w);
  write = λ d base offset bytes w. (done tt, w);
}

abbrev arc : Arc NoopDevice
arc = record { pointee = noop }

abbrev port : PioAddress
port = record { offset = 0 }

abbrev address : MmioAddress
address = record { offset = 0 }

-- `&vec![b'o', b'k']`
abbrev ok_bytes : List ℕ
ok_bytes = b'o' ∷ b'k' ∷ []

-- The dispatch of the two writes, with which both programs end.
unfoldable pub dispatch : IoManager (Arc NoopDevice) (Arc NoopDevice) → Outcome (Unit {0})
dispatch manager = do
  let (write, w) = pio_write pio_manager manager port ok_bytes tt
  on_pio ← write
  _ ← unwrap_ok on_pio
  let (write', w') = mmio_write mmio_manager manager address ok_bytes w
  on_mmio ← write'
  unwrap_ok on_mmio

unfoldable pub register_ranges : Outcome (Unit {0})
unfolding dispatch
register_ranges = do
  pio_range ← unwrap_ok (Range.new ⦃o = pio_address⦄ port 10)
  let (manager, on_pio) = register_pio pio_manager new pio_range arc
  _ ← unwrap_ok on_pio
  mmio_range ← unwrap_ok (Range.new ⦃o = mmio_address⦄ address 10)
  let (manager', on_mmio) = register_mmio mmio_manager manager mmio_range arc
  _ ← unwrap_ok on_mmio
  dispatch manager'

unfoldable pub register_by_resources : Outcome (Unit {0})
unfolding dispatch
register_by_resources = do
  let pio = pio_address_range 0 10
  let mmio = mmio_address_range 0 10
  let (manager, register) = register_pio_resources new arc (pio ∷ [])
  on_pio ← register
  _ ← unwrap_ok on_pio
  let (manager', register') = register_mmio_resources manager arc (mmio ∷ [])
  on_mmio ← register'
  _ ← unwrap_ok on_mmio
  dispatch manager'

-- The lines that the device has printed, the last one first. They stand for the output.
pub record LogDevice : Type 0 where
  pub printed : List String

-- `{:?}` on bytes, after the first.
unfoldable pub more_bytes : List ℕ → String
more_bytes [] = "]"
more_bytes (x ∷ xs) = ", " ++ (decimal x ++ more_bytes xs)

unfoldable pub debug_bytes : List ℕ → String
unfolding more_bytes
debug_bytes [] = "[]"
debug_bytes (x ∷ xs) = "[" ++ (decimal x ++ more_bytes xs)

-- `base {:?}, offset {}`
unfoldable pub place : PioAddress → ℕ → String
place base offset = "base PioAddress(" ++ (decimal base.offset ++ ("), offset " ++ decimal offset))

instance unfoldable pub log_device : MutDevice PioAddress LogDevice
unfolding place debug_bytes
log_device = record {
  read = λ d base offset buffer.
      (done buffer, record { printed = ("mut pio_read: " ++ place base offset) ∷ d.printed });
  write = λ d base offset bytes. (
    done tt,
    record {
      printed =
          ("mut pio_write: " ++ (place base offset ++ (", data " ++ debug_bytes bytes)))
          ∷ d.printed;
    },
  );
}

-- The mutex has an address in a world.
unfoldable pub log_a_write : Outcome (World LogDevice)
log_a_write = do
  let world : World LogDevice = λ _. record { poisoned = false; inner = record { printed = [] } }
  let device : Arc (Mutex LogDevice) = record { pointee = record { address = 0 } }
  bus_range ← unwrap_ok (Range.new ⦃o = pio_address⦄ port 10)
  let manager : IoManager (Arc (Mutex LogDevice)) (Arc (Mutex LogDevice)) = new
  let (manager', x) = register_pio pio_manager manager bus_range device
  _ ← unwrap_ok x
  let (write, w) = pio_write pio_manager manager' port ok_bytes world
  y ← write
  _ ← unwrap_ok y
  done w

programs-done : (register_ranges ≡ done tt) × (register_by_resources ≡ done tt)
unfolding register_ranges register_by_resources new pio_manager mmio_manager register_mmio
    register_pio mmio_write pio_write register_mmio_resources register_pio_resources insert
    range_to_inclusive nth_back Bus.device Bus.new Bus.register Bus.check_access Bus.overlaps_any
    Range.new Range.last Range.unit Range.overlaps Range.cmp mmio_address pio_address arc_device
    noop_device Arc.write
programs-done = (refl, refl)

log_a_write-printed :
    (log_a_write >>= λ w. done (w 0).inner.printed)
    ≡ done ("mut pio_write: base PioAddress(0), offset 0, data [111, 107]" ∷ [])
unfolding log_a_write new pio_manager register_pio pio_write insert range_to_inclusive nth_back
    Bus.device Bus.new Bus.register Bus.check_access Bus.overlaps_any Range.new Range.last
    Range.unit Range.overlaps Range.cmp pio_address arc_device mutex_device log_device with_lock
    Arc.write Mutex.write decimal
log_a_write-printed = refl
