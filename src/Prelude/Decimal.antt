-- ===== src/Prelude/Decimal.antt =====
-- Decimal numbers, as `{}` prints an unsigned integer, and how they are read back.
use Prim.Native.Char.{code}
use Prim.Native.Nat.{ℕ, zero, suc, ◌+◌, ◌-◌, ◌*◌, ◌/◌, ◌%◌, ◌<◌}
use Prim.Native.String.{String, ◌++◌}
use mathlib.Core.Path.{◌≡◌, refl, ◌∙◌}
use mathlib.Core.Bool.{◌&&◌}
use mathlib.Core.List.{List, [], ◌∷◌}
use text.Mathlib.TextLemmas.{nil-append, cons-append}
use native.Mathlib.Omega.{arith}
use vm_device.Prelude.Lists.{All}
use vm_device.Prelude.Tests.{ltb, leb, if◌then◌else◌}

-- The digits of a number, the last one first, with fuel.
unfoldable pub digits : ℕ → ℕ → List ℕ
digits zero n = []
digits (suc fuel) n = let more = digits fuel (n / 10) in if ltb n 10 then n ∷ [] else n % 10 ∷ more

-- The number that digits stand for.
abbrev pub number : List ℕ → ℕ
number [] = 0
number (d ∷ ds) = d + 10 * number ds

-- The fuel is enough where it exceeds the number: nothing of the number is lost.
pub number-digits : (fuel n : ℕ) → n < fuel → number (digits fuel n) ≡ n
unfolding digits
number-digits zero n h = absurd (omega arith)
number-digits (suc fuel) n h = ground (arith, number-digits fuel (n / 10))

abbrev pub digit_text : ℕ → String
digit_text zero = "0"
digit_text (suc zero) = "1"
digit_text (suc (suc zero)) = "2"
digit_text (suc (suc (suc zero))) = "3"
digit_text (suc (suc (suc (suc zero)))) = "4"
digit_text (suc (suc (suc (suc (suc zero))))) = "5"
digit_text (suc (suc (suc (suc (suc (suc zero)))))) = "6"
digit_text (suc (suc (suc (suc (suc (suc (suc zero))))))) = "7"
digit_text (suc (suc (suc (suc (suc (suc (suc (suc zero)))))))) = "8"
digit_text _ = "9"

abbrev pub digits_text : List ℕ → String
digits_text [] = ""
digits_text (d ∷ ds) = digits_text ds ++ digit_text d

unfoldable pub decimal : ℕ → String
unfolding digits
decimal n = digits_text (digits (suc n) n)

-- The number that the digits of a text spell, after a number that was read before it.
unfoldable pub read : String → ℕ → ℕ
read String.[] n = n
read (String.◌∷◌ c s) n =
    read s (if leb 48 (code c) && ltb (code c) 58 then 10 * n + (code c - 48) else n)

pub read-append : (s t : String) (n : ℕ) → read (s ++ t) n ≡ read t (read s n)
unfolding read
read-append String.[] t n = rw (nil-append t) refl
read-append (String.◌∷◌ c s) t n = rw (cons-append c s t) (read-append s t _)

read-digit_text : (d n : ℕ) → d < 10 → read (digit_text d) n ≡ 10 * n + d
unfolding read
read-digit_text zero n h = omega arith
read-digit_text (suc zero) n h = omega arith
read-digit_text (suc (suc zero)) n h = omega arith
read-digit_text (suc (suc (suc zero))) n h = omega arith
read-digit_text (suc (suc (suc (suc zero)))) n h = omega arith
read-digit_text (suc (suc (suc (suc (suc zero))))) n h = omega arith
read-digit_text (suc (suc (suc (suc (suc (suc zero)))))) n h = omega arith
read-digit_text (suc (suc (suc (suc (suc (suc (suc zero))))))) n h = omega arith
read-digit_text (suc (suc (suc (suc (suc (suc (suc (suc zero)))))))) n h = omega arith
read-digit_text (suc (suc (suc (suc (suc (suc (suc (suc (suc zero))))))))) n h = omega arith
read-digit_text (suc (suc (suc (suc (suc (suc (suc (suc (suc (suc _)))))))))) n h =
    absurd (omega arith)

digits-All : (fuel n : ℕ) → All (λ d. d < 10) (digits fuel n)
unfolding digits
digits-All zero n = tt
digits-All (suc fuel) n = ground (arith, digits-All fuel (n / 10))

read-digits_text : (ds : List ℕ) → All (λ d. d < 10) ds → read (digits_text ds) 0 ≡ number ds
unfolding read
read-digits_text [] a = refl
read-digits_text (d ∷ ds) (h, a) =
    read-append (digits_text ds) (digit_text d) 0
    ∙ rw (read-digits_text ds a, read-digit_text d (number ds) h) (omega arith)

pub read-decimal : (n : ℕ) → read (decimal n) 0 ≡ n
unfolding decimal
read-decimal n =
    read-digits_text (digits (suc n) n) (digits-All (suc n) n)
    ∙ number-digits (suc n) n (omega arith)

decimal-2040 : decimal 2040 ≡ "2040"
unfolding decimal
decimal-2040 = refl
