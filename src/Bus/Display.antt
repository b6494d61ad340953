-- ===== src/Bus/Display.antt =====
-- src/bus/mod.rs: the texts of the errors.
use Prim.Native.String.{String, ◌++◌}
use text.Mathlib.Text.{◌==◌}
use text.Mathlib.TextEquality.{eq_iff}
use Prim.Native.Char.{code}
use text.Mathlib.TextLemmas.{append_cancel_left, append_assoc, cons-append, head-eq_of_cons-eq}
use vm_device.Prelude.{ℕ, ◌≡◌, ◌↔◌, refl, arith, ap, ◌∙◌, Option, none, some, if◌then◌else◌}
use vm_device.Prelude.Decimal.{decimal, read, read-append, read-decimal}
use vm_device.Bus.Errors.{
  Error, device_not_found, device_overlap, invalid_access_length, invalid_range,
}

unfoldable pub fmt : Error → String
fmt device_not_found = "device not found"
fmt device_overlap = "range overlaps with existing device"
fmt (invalid_access_length len) = "invalid access length (" ++ (decimal len ++ ")")
fmt invalid_range = "invalid range provided"

fmt-length : fmt (invalid_access_length 65536) ≡ "invalid access length (65536)"
unfolding fmt decimal
fmt-length = refl

-- No text of another error begins like that of a length.
other_text :
    (e : Error) (len : ℕ)
    → fmt e ≡ fmt (invalid_access_length len)
    → (n : ℕ) × (e ≡ invalid_access_length n)
unfolding fmt
other_text device_not_found len h = absurd (
    omega (
      arith,
      ap code
          (head-eq_of_cons-eq (h ∙ cons-append "i" "nvalid access length (" (decimal len ++ ")"))),
    ))
other_text device_overlap len h = absurd (
    omega (
      arith,
      ap code
          (head-eq_of_cons-eq (h ∙ cons-append "i" "nvalid access length (" (decimal len ++ ")"))),
    ))
other_text (invalid_access_length n) len h = (n, refl)
other_text invalid_range len h =
    let rest =
      append_cancel_left "invalid " "range provided" _
        (h ∙ append_assoc "invalid " "access length (" (decimal len ++ ")")) in
    absurd (
      omega (
        arith,
        ap code (head-eq_of_cons-eq (rest ∙ cons-append "a" "ccess length (" (decimal len ++ ")"))),
      ))

-- The error that a text reports, if any. The length is read off the digits of the text.
unfoldable pub error_of : String → Option Error
unfolding read decimal
error_of t =
    let len = read t 0 in
    if t == "device not found"
    then some device_not_found
    else if t == "range overlaps with existing device"
    then some device_overlap
    else if t == "invalid range provided"
    then some invalid_range
    else if t == "invalid access length (" ++ (decimal len ++ ")")
    then some (invalid_access_length len)
    else none

-- The length can be read off its text.
read-fmt : (len : ℕ) → read (fmt (invalid_access_length len)) 0 ≡ len
unfolding fmt read
read-fmt len =
    read-append "invalid access length (" (decimal len ++ ")") 0
    ∙ read-append (decimal len) ")" 0
    ∙ read-decimal len

error_of-fmt : (e : Error) → error_of (fmt e) ≡ some e
unfolding error_of fmt
error_of-fmt device_not_found = refl
error_of-fmt device_overlap = refl
error_of-fmt invalid_range = refl
error_of-fmt (invalid_access_length len) =
    let t = fmt (invalid_access_length len) in
    ground (
      arith,
      read-fmt len,
      eq_iff t "device not found",
      eq_iff t "range overlaps with existing device",
      eq_iff t "invalid range provided",
      eq_iff t ("invalid access length (" ++ (decimal len ++ ")")),
      other_text device_not_found len,
      other_text device_overlap len,
      other_text invalid_range len,
    )

-- `error_of`, which reads errors off texts and the length that is refused off the digits of its
-- text, reads an error off a text exactly if the text is that of the error.
pub error_of-eq-some_iff : (t : String) (e : Error) → (error_of t ≡ some e) ↔ (t ≡ fmt e)
unfolding error_of fmt
error_of-eq-some_iff t e = (
  λ h. ground (
    arith,
    eq_iff t "device not found",
    eq_iff t "range overlaps with existing device",
    eq_iff t "invalid range provided",
    eq_iff t ("invalid access length (" ++ (decimal (read t 0) ++ ")")),
  ),
  λ h. ap error_of h ∙ error_of-fmt e,
)
