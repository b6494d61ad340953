-- ===== src/Address/Overflow.antt =====
-- src/bus/address.rs: the operators `+` and `-` of addresses, and `-` of values, in a build with
-- overflow checks, where a result that does not fit its type is a panic.
use vm_device.Prelude.{
  ℕ, ◌+◌, ◌-◌, ◌^◌, ◌≤◌, ◌<◌, ◌≡◌, Outcome, done, panic, ltb, leb, arith, if◌then◌else◌,
}
use vm_device.Address.{BusAddress, InBounds}
use vm_device.Address.Laws.{sub-eq}

-- `-` of two values.
unfoldable pub sub_value : ℕ → ℕ → Outcome ℕ
sub_value a b = if leb b a then done (a - b) else panic

module _ {A : Type 0} ⦃o : BusAddress A⦄ where
  unfoldable pub add : A → ℕ → Outcome A
  add a rhs = if ltb (o.value a + rhs) (2 ^ o.bits) then done (o.add a rhs) else panic

  unfoldable pub sub : A → A → Outcome ℕ
  unfolding sub_value
  sub a rhs = sub_value (o.value a) (o.value rhs)

  pub add-done : (a : A) (v : ℕ) → o.value a + v < 2 ^ o.bits → add a v ≡ done (o.add a v)
  unfolding add
  add-done a v h = ground arith

  pub sub-done : (a b : A) → InBounds a → o.value b ≤ o.value a → sub a b ≡ done (o.sub a b)
  unfolding sub
  sub-done a b h k = ground (arith, sub-eq a b h k)
