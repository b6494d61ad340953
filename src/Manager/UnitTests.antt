-- ===== src/Manager/UnitTests.antt =====
-- src/device_manager.rs: the unit tests that register, read and write a device with a mutex inside.
use vm_device.Prelude.{
  ℕ, ◌≡◌, ◌+◌, refl, Bool, List, [], ◌∷◌, Outcome, done, ◌==◌, ◌&&◌, true, false,
}
use vm_device.Prelude.Panic.{◌>>=◌, ◌>>◌, assert, unwrap_ok, is_ok, is_err}
use vm_device.Address.Mmio.{MmioAddress, mmio_address}
use vm_device.Address.Pio.{PioAddress, pio_address}
use vm_device.Range
use vm_device.BTreeMap.{insert, remove, range_to_inclusive, nth_back}
use vm_device.Bus
use vm_device.Device.Arc.{Arc, arc_device}
use vm_device.Device.Arc
use vm_device.Device.Mutex.{World, with_lock}
use vm_device.Device.Locked.{DummyDevice, locked_device}
use vm_device.Device.Locked
use vm_device.Resources.{Resource, mmio_address_range, pio_address_range, legacy_irq}
use vm_device.Manager.{
  new, pio_manager, mmio_manager, register_mmio, register_pio, deregister_mmio, deregister_pio,
  mmio_read, mmio_write, pio_read, pio_write,
}
use vm_device.Manager.Resourceful.{
  register_mmio_resources, register_pio_resources, deregister_loop, deregister_resources,
}

-- The constants of the test module.
abbrev mmio_resource : Resource
mmio_resource = mmio_address_range 0x12345678 0x87654321

abbrev pio_resource : Resource
pio_resource = pio_address_range 0x40 4

-- `Arc::new(DummyDevice::new(config))`: the mutex has an address in a world, where it holds the word.
abbrev dum : Arc DummyDevice
dum = record { pointee = record { config = record { address = 0 } } }

abbrev world : ℕ → World ℕ
world config _ = record { poisoned = false; inner = config }

abbrev same_bytes : List ℕ → List ℕ → Bool
same_bytes [] [] = true
same_bytes (x ∷ xs) (y ∷ ys) = (x == y) && same_bytes xs ys
same_bytes _ _ = false

unfoldable pub test_register_deregister_device_io : Outcome (Unit {0})
test_register_deregister_device_io = do
  let resource = mmio_resource ∷ legacy_irq 4 ∷ pio_resource ∷ []
  let io_mgr = new {P = Arc DummyDevice} {M = Arc DummyDevice}
  let (io_mgr', x) = register_mmio_resources io_mgr dum resource
  r ← x
  assert (is_ok r)
  let (io_mgr'', y) = register_pio_resources io_mgr' dum resource
  s ← y
  assert (is_ok s)
  assert ((deregister_resources io_mgr'' resource).1 == 2)

unfoldable pub test_mmio_read_write : Outcome (Unit {0})
test_mmio_read_write = do
  let base : MmioAddress = record { offset = 0x12345678 }
  let behind : MmioAddress = record { offset = 0x12345678 + 0x87654321 }
  let zeros : List ℕ = 0 ∷ 0 ∷ 0 ∷ 0 ∷ []
  let (io_mgr, x) =
      register_mmio_resources (new {P = Arc DummyDevice} {M = Arc DummyDevice}) dum
        (mmio_resource ∷ [])
  r ← x
  assert (is_ok r)
  let (read, w) = mmio_read mmio_manager io_mgr base zeros (world 0x1234)
  answer ← read
  bytes ← unwrap_ok answer
  assert (same_bytes bytes (0x34 ∷ 0x12 ∷ 0 ∷ 0 ∷ []))
  let (read_behind, w') = mmio_read mmio_manager io_mgr behind bytes w
  refused ← read_behind
  assert (is_err refused)
  let (write, w'') = mmio_write mmio_manager io_mgr base zeros w'
  written ← write
  assert (is_ok written)
  let (look, w''') = with_lock dum.pointee.config (λ word. (done word, word)) w''
  word ← look
  assert (word == 0)
  let (write_behind, _) = mmio_write mmio_manager io_mgr behind zeros w'''
  refused' ← write_behind
  assert (is_err refused')

unfoldable pub test_pio_read_write : Outcome (Unit {0})
test_pio_read_write = do
  let base : PioAddress = record { offset = 0x40 }
  let behind : PioAddress = record { offset = 0x40 + 4 }
  let zeros : List ℕ = 0 ∷ 0 ∷ 0 ∷ 0 ∷ []
  let (io_mgr, x) =
      register_pio_resources (new {P = Arc DummyDevice} {M = Arc DummyDevice}) dum
        (pio_resource ∷ [])
  r ← x
  assert (is_ok r)
  let (read, w) = pio_read pio_manager io_mgr base zeros (world 0x1234)
  answer ← read
  bytes ← unwrap_ok answer
  assert (same_bytes bytes (0x34 ∷ 0x12 ∷ 0 ∷ 0 ∷ []))
  let (read_behind, w') = pio_read pio_manager io_mgr behind bytes w
  refused ← read_behind
  assert (is_err refused)
  let (write, w'') = pio_write pio_manager io_mgr base zeros w'
  written ← write
  assert (is_ok written)
  let (look, w''') = with_lock dum.pointee.config (λ word. (done word, word)) w''
  word ← look
  assert (word == 0)
  let (write_behind, _) = pio_write pio_manager io_mgr behind zeros w'''
  refused' ← write_behind
  assert (is_err refused')

tests-done :
    (test_register_deregister_device_io ≡ done tt)
    × (test_mmio_read_write ≡ done tt)
    × (test_pio_read_write ≡ done tt)
unfolding test_register_deregister_device_io test_mmio_read_write test_pio_read_write new
    pio_manager mmio_manager register_mmio register_pio deregister_mmio deregister_pio mmio_read
    mmio_write pio_read pio_write register_mmio_resources register_pio_resources deregister_loop
    deregister_resources insert remove range_to_inclusive nth_back Bus.device Bus.new Bus.register
    Bus.deregister Bus.check_access Bus.overlaps_any Range.new Range.last Range.unit Range.overlaps
    Range.cmp mmio_address pio_address arc_device locked_device with_lock Locked.read Locked.write
    Arc.read Arc.write
tests-done = (refl, refl, refl)
