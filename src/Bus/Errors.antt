-- ===== src/Bus/Errors.antt =====
-- src/bus/mod.rs: the errors of the bus operations.
use vm_device.Prelude.{ℕ, Bool, true, false, ◌==◌, Result, ok, err}

pub data Error : Type 0 where
  device_not_found : Error
  device_overlap : Error
  invalid_access_length : ℕ → Error
  invalid_range : Error

-- The derived `==`.
unfoldable pub eq : Error → Error → Bool
eq device_not_found device_not_found = true
eq device_overlap device_overlap = true
eq (invalid_access_length n) (invalid_access_length k) = n == k
eq invalid_range invalid_range = true
eq _ _ = false

-- `==` of a result and `Err(e)`.
abbrev pub fails_with {ℓ} : {A : Type ℓ} → Result A Error → Error → Bool
fails_with (ok a) e = false
fails_with (err f) e = eq f e
