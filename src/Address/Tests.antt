-- ===== src/Address/Tests.antt =====
-- The unit test of src/bus/address.rs, and its arithmetic on small addresses.
use vm_device.Prelude.{◌≡◌, ◌+◌, ◌≤◌, ◌↔◌, ◌^◌, refl, none, some, arith, true}
use vm_device.Address.Mmio.{MmioAddress, mmio_address}
use vm_device.Address.Mmio
use vm_device.Address.Pio.{PioAddress, pio_address}
use vm_device.Address.Pio
use vm_device.Address.Sums.{checked_add_lem, add-sub_lem}

abbrev port : PioAddress
port = record { offset = 65530 }

abbrev next_port : PioAddress
next_port = record { offset = 65535 }

-- A sum wraps around where the operator is used, and is refused where it is checked.
port_wraps : Pio.add port 10 ≡ record { offset = 4 }
unfolding Pio.add
port_wraps = refl

port_checked : Pio.checked_add port 10 ≡ none
unfolding Pio.checked_add
port_checked = refl

mmio_eq : Mmio.eq (record { offset = 16 }) (record { offset = 16 }) ≡ true
unfolding Mmio.eq
mmio_eq = refl

abbrev memory : MmioAddress
memory = record { offset = 0x1000 }

abbrev next_memory : MmioAddress
next_memory = record { offset = 0x1005 }

checked_add_lem_example :
    (((Mmio.checked_add memory 5 ≡ some next_memory)
        ↔ ((Mmio.add memory 5 ≡ next_memory) × (0x1005 ≡ 0x1000 + 5)))
      × ((Mmio.checked_add memory 5 ≡ none) ↔ (2 ^ 64 ≤ 0x1000 + 5)))
    × ((Pio.checked_add port 5 ≡ some next_port)
        ↔ ((Pio.add port 5 ≡ next_port) × (65535 ≡ 65530 + 5)))
    × ((Pio.checked_add port 5 ≡ none) ↔ (2 ^ 16 ≤ 65530 + 5))
checked_add_lem_example = checked_add_lem memory next_memory port next_port 5

-- The lower port less the higher one wraps around, and so does the sum that leads back.
add-sub_lem_example :
    (Mmio.add memory (Mmio.sub next_memory memory) ≡ next_memory)
    × (Mmio.sub (Mmio.add memory 5) memory ≡ 5)
    × (Pio.add next_port (Pio.sub port next_port) ≡ port)
    × (Pio.sub (Pio.add next_port 10) next_port ≡ 10)
add-sub_lem_example =
    add-sub_lem memory next_memory 5 next_port port 10 (omega arith) (omega arith) (omega arith)
      (omega arith) (omega arith) (omega arith)
