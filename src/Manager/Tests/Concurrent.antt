-- ===== src/Manager/Tests/Concurrent.antt =====
-- Two threads that share a manager: one writes to a port and the other reads from memory, on one
-- device behind a mutex; a third access finds no device.
use vm_device.Prelude.{
  ℕ, ◌≡◌, ◌<◌, refl, List, [], ◌∷◌, none, Outcome, done, Result, ok, err, false, arith,
}
use vm_device.Address.Mmio.{MmioAddress, mmio_address}
use vm_device.Address.Pio.{PioAddress, pio_address}
use vm_device.Bus.{check_access, device}
use vm_device.Bus.Errors
use vm_device.Device.Arc.{Arc}
use vm_device.Device.Dummy
use vm_device.Device.Dummy.{DummyDevice, dummy_device}
use vm_device.Device.Mutex.{Mutex, World}
use vm_device.Manager.{IoManager}
use vm_device.Manager.Concurrent.{
  Access, Answer, reads_pio, writes_pio, reads_mmio, bytes, written, answered, find_call, InTurn,
  after, Begun, IoSystem, begins, fails, goes_on, IoReach, start, later,
}
use vm_device.Manager.Concurrent.Sequential.{accesses_sequential}
use vm_device.Range
use vm_device.BTreeMap.{nth_back, range_to_inclusive}
use vm_device.Threads.{finish, acquire, advance, release}

abbrev dummy : Arc (Mutex DummyDevice)
dummy = record { pointee = record { address = 0 } }

abbrev world : World DummyDevice
world _ = record { poisoned = false; inner = record { config = 0x12345678 } }

abbrev port : ℕ → PioAddress
port n = record { offset = n }

abbrev at : ℕ → MmioAddress
at n = record { offset = n }

abbrev manager : IoManager (Arc (Mutex DummyDevice)) (Arc (Mutex DummyDevice))
manager = record {
  pio_bus = record { devices = (record { base = port 0x60; size = 8 }, dummy) ∷ [] };
  mmio_bus = record { devices = (record { base = at 0x1000; size = 0x400 }, dummy) ∷ [] };
}

-- The methods, each as one step.
abbrev write_method : DummyDevice → Outcome Answer × DummyDevice
write_method x = answered written (Dummy.write x (port 0x60) 1 (7 ∷ []))

abbrev read_method : DummyDevice → Outcome Answer × DummyDevice
read_method x = answered bytes (Dummy.read x (at 0x1000) 0x10 (0 ∷ 0 ∷ []))

abbrev only : List Answer → Answer
only [] = written tt
only (x ∷ _) = x

abbrev later_config : DummyDevice
later_config = record { config = 7 }

writes_low : Begun manager Answer
unfolding find_call check_access device range_to_inclusive nth_back finish dummy_device Dummy.write
    pio_address mmio_address Range.new Range.cmp Range.unit Range.last
writes_low = record {
  access = writes_pio (port 0x61) (7 ∷ []);
  address = 0;
  method = write_method;
  body = write_method ∷ [];
  collect = only;
  finds = refl;
  splits = λ x. refl;
}

reads_low : Begun manager Answer
unfolding find_call check_access device range_to_inclusive nth_back finish dummy_device Dummy.read
    pio_address mmio_address Range.new Range.cmp Range.unit Range.last
reads_low = record {
  access = reads_mmio (at 0x1010) (0 ∷ 0 ∷ []);
  address = 0;
  method = read_method;
  body = read_method ∷ [];
  collect = only;
  finds = refl;
  splits = λ x. refl;
}

finds_none : find_call manager (reads_pio (port 0x50) (0 ∷ [])) ≡ err Errors.device_not_found
unfolding find_call check_access device range_to_inclusive nth_back pio_address Range.new Range.cmp
    Range.unit Range.last
finds_none = refl

writes : write_method (world 0).inner ≡ (done (written tt), later_config)
unfolding Dummy.write
writes = refl

reads : read_method later_config ≡ (done (bytes (7 ∷ 0 ∷ [])), later_config)
unfolding Dummy.read Dummy.fill
reads = refl

zero_lt_three : 0 < 3
zero_lt_three = omega arith

-- Both threads call, and the second gets the lock first; before it releases the lock, a third
-- thread looks for a device in vain.
abbrev ended : List (Access × Outcome (Result Answer Errors.Error))
ended =
    (reads_mmio (at 0x1010) (0 ∷ 0 ∷ []), done (ok (bytes (7 ∷ 0 ∷ []))))
    ∷ (writes_pio (port 0x61) (7 ∷ []), done (ok (written tt)))
    ∷ (reads_pio (port 0x50) (0 ∷ []), done (err Errors.device_not_found))
    ∷ []

ran : (s : IoSystem manager Answer) × IoReach manager 3 world s × (s.ended ≡ ended)
unfolding writes_low reads_low
ran =
    let both =
      later (later start (begins 0 reads_low (omega arith) refl))
        (begins 1 writes_low (omega arith) refl) in
    let wrote =
      later (later both (goes_on (acquire 1 0 (write_method ∷ []) (omega arith) refl refl refl))) (
        goes_on (
          advance 1 0 (write_method ∷ []) [] write_method [] (written tt) later_config (omega arith)
            refl writes)) in
    let failed = later wrote (
      fails 2 (reads_pio (port 0x50) (0 ∷ [])) Errors.device_not_found (omega arith) refl
        finds_none) in
    let released =
      later failed
        (goes_on (release 1 0 (write_method ∷ []) (written tt ∷ []) (omega arith) refl)) in
    let read =
      later (later released (goes_on (acquire 0 0 (read_method ∷ []) (omega arith) refl refl refl)))
        (goes_on (
          advance 0 0 (read_method ∷ []) [] read_method [] (bytes (7 ∷ 0 ∷ [])) later_config
            (omega arith) refl reads)) in
    (
      _,
      later read
          (goes_on (release 0 0 (read_method ∷ []) (bytes (7 ∷ 0 ∷ []) ∷ []) zero_lt_three refl)),
      refl,
    )

accesses_sequential_example :
    InTurn manager world ran.0.ended
    × ((p : ℕ)
        → ran.0.threads.holder p ≡ none
        → ran.0.threads.mem p ≡ after manager world ran.0.ended p)
accesses_sequential_example = accesses_sequential ran.1
