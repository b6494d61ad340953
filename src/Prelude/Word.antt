-- ===== src/Prelude/Word.antt =====
-- Arithmetic of Rust's unsigned integers at a width of `w` bits: a value is a number below 2 ^ w.
-- `+` and `-` wrap, as they do where overflow checks are off; where they are on, an overflow panics.
use Prim.Native.Nat.{ℕ, ◌+◌, ◌-◌, ◌%◌, ◌^◌, ◌≤◌, ◌<◌}
use mathlib.Core.Path.{◌≡◌}
use mathlib.Core.Option.{Option, none, some}
use native.Mathlib.Omega.{arith}
use vm_device.Prelude.Tests.{ltb, if◌then◌else◌}

abbrev pub wrapping_add : ℕ → ℕ → ℕ → ℕ
wrapping_add w a b = (a + b) % 2 ^ w

abbrev pub wrapping_sub : ℕ → ℕ → ℕ → ℕ
wrapping_sub w a b = (a + 2 ^ w - b) % 2 ^ w

-- `checked_add`: none where the sum does not fit.
abbrev pub checked_add : ℕ → ℕ → ℕ → Option ℕ
checked_add w a b = if ltb (a + b) (2 ^ w) then some (a + b) else none

-- `TryFrom<usize>`: none where the value does not fit.
abbrev pub try_from : ℕ → ℕ → Option ℕ
try_from w n = if ltb n (2 ^ w) then some n else none

-- Inside the bounds, the wrapping operations are those on numbers.
pub wrapping_add-eq : (w a b : ℕ) → a + b < 2 ^ w → wrapping_add w a b ≡ a + b
wrapping_add-eq w a b h = grind arith

pub wrapping_sub-eq : (w a b : ℕ) → a < 2 ^ w → b ≤ a → wrapping_sub w a b ≡ a - b
wrapping_sub-eq w a b h k = grind arith
