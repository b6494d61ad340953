-- ===== src/Address/Mmio.antt =====
-- src/bus/address.rs: `MmioAddress`, an address of 64 bits.
use vm_device.Prelude.{ℕ, refl, compare, Ordering, Bool, Option, some, ◌==◌, arith}
use vm_device.Prelude.Word
use vm_device.Prelude.Word.{wrapping_add, wrapping_sub}
use vm_device.Address.{BusAddress, IsLawful}
use mathlib.Core.Option

-- The width of `MmioAddressOffset`.
abbrev pub bits : ℕ
bits = 64

pub record MmioAddress : Type 0 where
  pub offset : ℕ

unfoldable pub eq : MmioAddress → MmioAddress → Bool
eq a b = a.offset == b.offset

unfoldable pub partial_cmp : MmioAddress → MmioAddress → Option Ordering
partial_cmp a b = some (compare a.offset b.offset)

unfoldable pub cmp : MmioAddress → MmioAddress → Ordering
cmp a b = compare a.offset b.offset

unfoldable pub add : MmioAddress → ℕ → MmioAddress
add a rhs = record { offset = wrapping_add bits a.offset rhs }

unfoldable pub sub : MmioAddress → MmioAddress → ℕ
sub a rhs = wrapping_sub bits a.offset rhs.offset

unfoldable pub value : MmioAddress → ℕ
value a = a.offset

unfoldable pub checked_add : MmioAddress → ℕ → Option MmioAddress
checked_add a v = Option.map (λ n. record { offset = n }) (Word.checked_add bits a.offset v)

pub mmio-IsLawful : IsLawful bits eq partial_cmp cmp add sub value checked_add
unfolding eq partial_cmp cmp add sub value checked_add
mmio-IsLawful = record {
  wide = omega arith;
  value_injective = λ a b h. ground arith;
  eq_value = λ a b. refl;
  partial_cmp_value = λ a b. refl;
  cmp_value = λ a b. refl;
  value_add = λ a v. refl;
  sub_value = λ a b. refl;
  checked_add_some = λ a v h. ground arith;
  checked_add_none = λ a v h. ground arith;
}

instance unfoldable pub mmio_address : BusAddress MmioAddress
unfolding eq partial_cmp cmp add sub value checked_add
mmio_address = record {
  bits = bits;
  eq = eq;
  partial_cmp = partial_cmp;
  cmp = cmp;
  add = add;
  sub = sub;
  value = value;
  checked_add = checked_add;
  lawful = mmio-IsLawful;
}
