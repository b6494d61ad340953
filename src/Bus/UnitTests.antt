-- ===== src/Bus/UnitTests.antt =====
-- src/bus/mod.rs: the unit test, with a number for the device.
use vm_device.Prelude.{ℕ, ◌≡◌, ◌+◌, ◌-◌, ◌^◌, refl, Outcome, done, ◌==◌, length}
use vm_device.Prelude.Panic.{◌>>=◌, ◌>>◌, assert, unwrap, unwrap_ok, is_ok, is_none, for_each}
use vm_device.Address.Mmio
use vm_device.Address.Mmio.{MmioAddress, mmio_address}
use vm_device.Address.Pio.{PioAddress, pio_address}
use vm_device.Range
use vm_device.Range.{BusRange, last}
use vm_device.BTreeMap.{insert, remove, range_to_inclusive, nth_back}
use vm_device.Bus.{Bus, new, device, device_mut, register, deregister, check_access, overlaps_any}
use vm_device.Bus.Errors
use vm_device.Bus.Errors.{fails_with, device_overlap, device_not_found, invalid_access_length}

-- `usize::MAX` of a machine with 64 bits.
abbrev usize_max : ℕ
usize_max = 2 ^ 64 - 1

-- The two assertions on a range and a device that are found.
abbrev assert_entry : BusRange MmioAddress → ℕ → BusRange MmioAddress → ℕ → Outcome (Unit {0})
assert_entry range dev r d = do assert (Range.eq range r); assert (dev == d)

-- A range that overlaps the registered one.
unfoldable assert_refused : Bus MmioAddress ℕ → BusRange MmioAddress → ℕ → Outcome (Unit {0})
assert_refused bus range dev = do
  assert (fails_with (register bus range dev).1 device_overlap)
  assert (fails_with (check_access bus range.base range.size) device_not_found)

-- The loop over the addresses of the registered range.
unfoldable test_found : Bus MmioAddress ℕ → BusRange MmioAddress → ℕ → ℕ → Outcome (Unit {0})
test_found bus range dev len =
    for_each 0 len
      (λ offset _. do
        addr ← unwrap (Mmio.checked_add range.base offset)
        (r, d) ← unwrap (device bus addr)
        assert_entry range dev r d
        (r', d', _) ← unwrap (device_mut bus addr)
        assert_entry range dev r' d'
        for_each 0 offset
            (λ start_offset _. do
              start_addr ← unwrap (Mmio.checked_add range.base start_offset)
              (r'', d'') ← unwrap_ok (check_access bus start_addr (offset - start_offset))
              assert_entry range dev r'' d'')
            tt)
      tt

-- The loop that registers and deregisters another range.
unfoldable test_deregister :
    Bus MmioAddress ℕ → BusRange MmioAddress → ℕ → Outcome (Bus MmioAddress ℕ)
test_deregister bus range2 device2 =
    for_each 0 range2.size
      (λ offset b. do
        let (b', x) = register b range2 device2
        assert (is_ok x)
        assert (length b'.devices == 2)
        addr ← unwrap (Mmio.checked_add range2.base offset)
        let (b'', found) = deregister b' addr
        (r, d) ← unwrap found
        assert (length b''.devices == 1)
        assert (Range.eq r range2)
        assert (d == device2)
        let (b''', again) = deregister b'' addr
        assert (is_none again)
        assert (length b'''.devices == 1)
        done b''')
      bus

unfoldable test_pio : Outcome (Unit {0})
test_pio = do
  let pio_base : PioAddress = record { offset = 10 }
  pio_range ← unwrap_ok (Range.new pio_base 10)
  let (pio_bus, x) = register (new {A = PioAddress} {D = ℕ}) pio_range 1
  assert (is_ok x)
  assert (fails_with (check_access pio_bus pio_base usize_max) (invalid_access_length usize_max))

unfoldable pub test_bus : Outcome (Unit {0})
unfolding assert_refused test_found test_deregister test_pio
test_bus = do
  let base : MmioAddress = record { offset = 10 }
  let base_prev : MmioAddress = record { offset = 9 }
  range ← unwrap_ok (Range.new base 10)
  range_next ← unwrap (Mmio.checked_add (last range) 1)
  let empty = new {A = MmioAddress} {D = ℕ}
  assert (length empty.devices == 0)
  let (bus, x) = register empty range 1
  assert (is_ok x)
  assert (length bus.devices == 1)
  assert (is_none (device bus base_prev))
  assert (is_none (device_mut bus base_prev))
  assert (is_none (device bus range_next))
  assert (is_none (device_mut bus range_next))
  test_found bus range 1 10
  assert (fails_with (register bus range 1).1 device_overlap)
  before ← unwrap_ok (Range.new (record { offset = 1 }) 10)
  assert_refused bus before 1
  behind ← unwrap_ok (Range.new (last range) 10)
  assert_refused bus behind 1
  around ← unwrap_ok (Range.new (record { offset = 1 }) (Mmio.value (last range) + 100))
  assert_refused bus around 1
  free_base ← unwrap (Mmio.checked_add (last range) 1)
  range2 ← unwrap_ok (Range.new free_base 5)
  assert (fails_with (check_access bus range2.base range2.size) device_not_found)
  bus' ← test_deregister bus range2 2
  let (bus'', y) = register bus' range2 1
  assert (is_ok y)
  assert (length bus''.devices == 2)
  assert (fails_with (check_access bus'' range.base (range.size + 1)) device_not_found)
  test_pio

test_bus-done : test_bus ≡ done tt
unfolding test_bus new device device_mut register deregister check_access overlaps_any insert remove
    range_to_inclusive nth_back Range.new Range.last Range.unit Range.overlaps Range.eq Range.cmp
    Errors.eq mmio_address pio_address Mmio.value Mmio.checked_add
test_bus-done = refl
