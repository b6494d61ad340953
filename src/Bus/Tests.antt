-- ===== src/Bus/Tests.antt =====
-- src/bus/mod.rs: the unit tests, and the theorems at work on a small bus.
use vm_device.Prelude.{
  ℕ, ap, done, List, ◌≡◌, ◌↔◌, refl, [], ◌∷◌, none, some, ok, err, arith, if◌then◌else◌, ◌<◌, ◌≤◌,
}
use vm_device.Address.Mmio.{MmioAddress, mmio_address, value}
use vm_device.Range
use vm_device.Range.{BusRange}
use vm_device.BTreeMap.{insert, range_to_inclusive, nth_back}
use vm_device.Bus.{Bus, register, deregister, device, device_mut, check_access, overlaps_any}
use vm_device.Bus.Errors.{device_overlap, device_not_found, invalid_access_length}
use vm_device.Bus.Display.{fmt, error_of, error_of-eq-some_iff}
use vm_device.Bus.View.{contains, find, IsValid, view}
use vm_device.Bus.Lookup.{device-view}
use vm_device.Bus.Register.{
  IsFree, register-ok_iff, register-overlap_iff, register-IsValid, view-register,
}
use vm_device.Bus.Deregister.{deregister_present}
use vm_device.Bus.Access.{granted, check_access_lem, check_access-ok_iff}
use vm_device.Bus.Extensional.{deregister-register_iff, register_comm}
use vm_device.Bus.Mutable.{device_mut_present}
use vm_device.Bus.Overflow
use vm_device.Bus.History.{
  Call, run, SpecRun, registers, deregisters, looks_up, checks, run-SpecRun,
}

abbrev at : ℕ → MmioAddress
at n = record { offset = n }

abbrev low : BusRange MmioAddress
low = record { base = at 16; size = 16 }

abbrev high : BusRange MmioAddress
high = record { base = at 32; size = 16 }

abbrev no_devices : Bus MmioAddress ℕ
no_devices = record { devices = [] }

abbrev one_device : Bus MmioAddress ℕ
one_device = record { devices = (low, 1) ∷ [] }

abbrev two_devices : Bus MmioAddress ℕ
two_devices = record { devices = (low, 1) ∷ (high, 2) ∷ [] }

low-IsValid : Range.IsValid low
unfolding mmio_address value
low-IsValid = omega arith

high-IsValid : Range.IsValid high
unfolding mmio_address value
high-IsValid = omega arith

one_device-IsValid : IsValid one_device
unfolding mmio_address value
one_device-IsValid = record { chain = (omega arith, low-IsValid, tt) }

two_devices-IsValid : IsValid two_devices
unfolding mmio_address value
two_devices-IsValid = record { chain = (omega arith, low-IsValid, (omega arith, high-IsValid, tt)) }

-- The second device is registered behind the first.
register-high : register one_device high 2 ≡ (two_devices, ok tt)
unfolding register overlaps_any Range.overlaps mmio_address insert Range.cmp
register-high = refl

-- A range that begins inside a registered one is refused.
register_taken : (register two_devices (record { base = at 24; size = 1 }) 3).1 ≡ err device_overlap
unfolding register overlaps_any Range.overlaps mmio_address
register_taken = refl

-- An access that runs over the end of a range is refused.
check_across : check_access two_devices (at 30) 4 ≡ err device_not_found
unfolding check_access device range_to_inclusive nth_back mmio_address Range.cmp Range.unit
    Range.new Range.last
check_across = refl

view-low : view two_devices 20 ≡ some (low, 1)
unfolding view find mmio_address
view-low = refl

device-view_example : device two_devices (at 40) ≡ view two_devices 40
unfolding mmio_address value
device-view_example = device-view two_devices (at 40) two_devices-IsValid

register-ok_iff_example : ((register one_device high 2).1 ≡ ok tt) ↔ IsFree one_device high
register-ok_iff_example = register-ok_iff one_device high 2 one_device-IsValid high-IsValid

register-overlap_iff_example : (register two_devices low 3 ≡ (two_devices, err device_overlap)) ↔ (
    (n : ℕ) × (e : BusRange MmioAddress × ℕ) × Range.Contains low n × (view two_devices n ≡ some e))
register-overlap_iff_example =
    register-overlap_iff two_devices low 3 two_devices-IsValid low-IsValid

register-IsValid_example : IsValid (register one_device high 2).0
register-IsValid_example = register-IsValid one_device high 2 one_device-IsValid high-IsValid

view-register_example :
    view (register one_device high 2).0 33
    ≡ (if contains high 33 then some (high, 2) else view one_device 33)
view-register_example =
    view-register one_device high 2 one_device-IsValid high-IsValid (ap (λ p. p.1) register-high) 33

deregister_present_example :
    ((deregister two_devices (at 20)).1 ≡ some (low, 1))
    × IsValid (deregister two_devices (at 20)).0
    × ((n : ℕ)
        → view (deregister two_devices (at 20)).0 n
          ≡ (if contains low n then none else view two_devices n))
unfolding mmio_address value
deregister_present_example =
    deregister_present two_devices (at 20) two_devices-IsValid low 1 view-low

check_access_lem_example : check_access two_devices (at 40) 8 ≡ granted (view two_devices 40) 48
unfolding mmio_address value
check_access_lem_example = check_access_lem two_devices (at 40) 8 two_devices-IsValid

check_access-ok_iff_example :
    (check_access two_devices (at 40) 8 ≡ ok (high, 2))
    ↔ ((0 < 8) × ((n : ℕ) → 40 ≤ n → n < 48 → view two_devices n ≡ some (high, 2)))
unfolding mmio_address value
check_access-ok_iff_example = check_access-ok_iff two_devices (at 40) 8 two_devices-IsValid high 2

deregister-register_iff_example :
    (deregister two_devices (at 40) ≡ (one_device, some (high, 2)))
    ↔ ((register one_device high 2 ≡ (two_devices, ok tt)) × Range.Contains high 40)
unfolding mmio_address value
deregister-register_iff_example =
    deregister-register_iff two_devices one_device high 2 (at 40) two_devices-IsValid
      one_device-IsValid high-IsValid

register_comm_example :
    ((register no_devices high 2).1 ≡ ok tt)
    × ((register (register no_devices high 2).0 low 1).1 ≡ ok tt)
    × ((register (register no_devices high 2).0 low 1).0
        ≡ (register (register no_devices low 1).0 high 2).0)
unfolding register overlaps_any Range.overlaps mmio_address insert Range.cmp
register_comm_example =
    register_comm no_devices low high 1 2 (record { chain = tt }) low-IsValid high-IsValid refl refl

device_mut_present_example :
    (write : ℕ → Bus MmioAddress ℕ) × (device_mut two_devices (at 20) ≡ some (low, 1, write))
    × ((f : ℕ)
        → IsValid (write f)
          × ((n : ℕ)
              → view (write f) n ≡ (if contains low n then some (low, f) else view two_devices n)))
unfolding mmio_address value
device_mut_present_example =
    device_mut_present two_devices (at 20) two_devices-IsValid low 1 view-low

-- A registration, a failing one, a lookup, an access and two removals, the last one in vain.
abbrev calls : List (Call MmioAddress ℕ)
calls =
    registers high 2
    ∷ registers high 3
    ∷ looks_up (at 40)
    ∷ checks (at 16) 4
    ∷ deregisters (at 47)
    ∷ deregisters (at 47)
    ∷ []

run-SpecRun_example :
    IsValid (run one_device calls).0
    × SpecRun (view one_device) calls (view (run one_device calls).0) (run one_device calls).1
run-SpecRun_example =
    run-SpecRun one_device calls one_device-IsValid
      (high-IsValid, (high-IsValid, (tt, (tt, (tt, (tt, tt))))))

run-done_example : Overflow.run one_device calls ≡ done (run one_device calls)
run-done_example =
    Overflow.run-done one_device calls one_device-IsValid
      (high-IsValid, (high-IsValid, (tt, (tt, (tt, (tt, tt))))))

-- The text of the length 0x1000, which is spelled in two ways.
error_of-eq-some_iff_example :
    (error_of "invalid access length (65536)" ≡ some (invalid_access_length 65536))
    ↔ ("invalid access length (65536)" ≡ fmt (invalid_access_length 65536))
error_of-eq-some_iff_example =
    error_of-eq-some_iff "invalid access length (65536)" (invalid_access_length 65536)
