-- ===== src/Manager/Display.antt =====
-- src/device_manager.rs: the text and the source of an error, with their unit test.
use Prim.Native.String.{String}
use text.Mathlib.Text.{◌==◌ as str_eq}
use vm_device.Prelude.{◌≡◌, refl, Option, some, Outcome, done}
use vm_device.Prelude.Panic.{◌>>◌, assert}
use vm_device.Bus.Errors
use vm_device.Manager.{Error, bus}
use vm_device.Manager.Resourceful.{is_some}

unfoldable pub fmt : Error → String
fmt (bus _) = "device_manager: bus error"

unfoldable pub source : Error → Option Errors.Error
source (bus e) = some e

unfoldable pub test_error_code : Outcome (Unit {0})
test_error_code = do
  let err = bus Errors.device_overlap
  assert (is_some (source err))
  assert (str_eq (fmt err) "device_manager: bus error")

test_error_code-done : test_error_code ≡ done tt
unfolding test_error_code source fmt
test_error_code-done = refl
