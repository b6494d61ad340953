-- ===== src/Address/Laws.antt =====
-- src/bus/address.rs: sums and differences of addresses, and their comparisons as numbers.
use vm_device.Prelude.{ℕ, ◌+◌, ◌-◌, ◌^◌, ◌<◌, ◌≤◌, ◌≡◌, ◌∙◌, arith, ltb, leb}
use vm_device.Prelude.Word.{wrapping_add-eq, wrapping_sub-eq}
use vm_device.Address.{BusAddress, lt, gt, ge, InBounds}

module _ {A : Type 0} ⦃o : BusAddress A⦄ where
  open o use {bits, value}

  -- Where the sum fits, `+` gives it.
  pub value-add : (a : A) (v : ℕ) → value a + v < 2 ^ bits → value (o.add a v) ≡ value a + v
  value-add a v h = o.value_add a v ∙ wrapping_add-eq bits (value a) v h

  -- Where it is not negative, `-` gives the difference.
  pub sub-eq : (a b : A) → InBounds a → value b ≤ value a → o.sub a b ≡ value a - value b
  sub-eq a b h k = o.sub_value a b ∙ wrapping_sub-eq bits (value a) (value b) h k

  -- An address offset by a value, less the address, is the value, where the sum fits the width.
  pub sub-add : (a : A) (v : ℕ) → value a + v < 2 ^ bits → o.sub (o.add a v) a ≡ v
  sub-add a v h = omega (arith, sub-eq (o.add a v) a, value-add a v h)

  pub lt-ltb : (a b : A) → lt a b ≡ ltb (value a) (value b)
  lt-ltb a b = ground (arith, o.partial_cmp_value a b)

  pub gt-ltb : (a b : A) → gt a b ≡ ltb (value b) (value a)
  gt-ltb a b = ground (arith, o.partial_cmp_value a b)

  pub ge-leb : (a b : A) → ge a b ≡ leb (value b) (value a)
  ge-leb a b = ground (arith, o.partial_cmp_value a b)
