-- ===== src/Interrupt/Tests.antt =====
-- The methods that the traits of src/interrupt/mod.rs provide, and the order of the pins.
use vm_device.Prelude.{◌≡◌, refl, some, err, Ordering, false}
use vm_device.Interrupt.{enable, operation_not_supported}
use vm_device.Interrupt.Legacy.{int_a, int_c, eq, partial_cmp, discriminant}

enable_provided : enable (tt {0}) (tt {0}) ≡ (err operation_not_supported, tt)
unfolding enable
enable_provided = refl

int_a-before : partial_cmp int_a int_c ≡ some Ordering.lt
unfolding partial_cmp discriminant
int_a-before = refl

int_a-other : eq int_a int_c ≡ false
unfolding eq discriminant
int_a-other = refl
