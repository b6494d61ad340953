-- ===== src/Interrupt/Display.antt =====
-- src/interrupt/mod.rs: the texts of the errors.
use Prim.Native.String.{String, ◌++◌}
use vm_device.Prelude.{◌≡◌, refl}
use vm_device.Interrupt.{
  Error, operation_not_supported, invalid_configuration, interrupt_not_changed,
  interrupt_not_triggered, interrupt_allocation_error, interrupt_free_error,
}

-- What follows the prefix.
unfoldable pub message : Error → String
message operation_not_supported = "operation not supported"
message invalid_configuration = "invalid configuration"
message interrupt_not_changed = "the interrupt state could not be changed"
message interrupt_not_triggered = "the interrupt could not be triggered"
message interrupt_allocation_error = "the interrupt could not be allocated"
message interrupt_free_error = "the interrupt could not be released"

unfoldable pub fmt : Error → String
unfolding message
fmt e = "Interrupt error: " ++ message e

fmt-free : fmt interrupt_free_error ≡ "Interrupt error: the interrupt could not be released"
unfolding fmt
fmt-free = refl
