-- ===== src/Address/UnitTests.antt =====
-- src/bus/address.rs: the unit test, which runs one check on both address types.
use vm_device.Prelude.{ℕ, ◌≡◌, ◌+◌, ◌-◌, ◌^◌, refl, Outcome, done, arith, ◌==◌}
use vm_device.Prelude.Panic.{◌>>=◌, ◌>>◌, assert, unwrap, is_none}
use vm_device.Address.{BusAddress, lt}
use vm_device.Address.Mmio.{mmio_address}
use vm_device.Address.Pio.{pio_address}
use vm_device.Address.Laws.{value-add, sub-add, lt-ltb}

module _ {A : Type 0} ⦃o : BusAddress A⦄ where
  unfoldable pub check_bus_address_ops : A → ℕ → Outcome (Unit {0})
  check_bus_address_ops addr_zero max_value = do
    let addr = o.add addr_zero 5
    assert (lt addr_zero addr)
    assert (o.sub addr addr_zero == 5)
    assert (o.value addr == 5)
    sum ← unwrap (o.checked_add addr_zero 5)
    assert (o.eq sum addr)
    addr_max ← unwrap (o.checked_add addr_zero max_value)
    assert (is_none (o.checked_add addr_max 1))

  -- The check passes for every implementation that is lawful, at its least address and its greatest
  -- value.
  check_bus_address_ops-done :
      (addr_zero : A) (max_value : ℕ)
      → o.value addr_zero ≡ 0
      → max_value + 1 ≡ 2 ^ o.bits
      → check_bus_address_ops addr_zero max_value ≡ done tt
  unfolding check_bus_address_ops
  check_bus_address_ops-done addr_zero max_value z m =
      let addr = o.add addr_zero 5 in
      let addr_max = o.add addr_zero max_value in
      ground (
        arith,
        o.wide,
        lt-ltb addr_zero addr,
        sub-add addr_zero 5,
        value-add addr_zero 5,
        value-add addr_zero max_value,
        o.eq_value addr addr,
        o.checked_add_some addr_zero 5,
        o.checked_add_some addr_zero max_value,
        o.checked_add_none addr_max 1,
      )

unfoldable pub test_address_ops : Outcome (Unit {0})
unfolding check_bus_address_ops
test_address_ops = do
  check_bus_address_ops ⦃o = mmio_address⦄ (record { offset = 0 }) (2 ^ 64 - 1)
  check_bus_address_ops ⦃o = pio_address⦄ (record { offset = 0 }) (2 ^ 16 - 1)

test_address_ops-done : test_address_ops ≡ done tt
unfolding test_address_ops mmio_address pio_address
test_address_ops-done = refl
