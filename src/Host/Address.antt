-- ===== src/Host/Address.antt =====
-- Physical addresses as text (host/src/edid.c). A string is the list of its character codes, without
-- the terminator.
use cec_controller.Common.{
  hex_number, hex_text, power, hex_number-hex_onto, length-hex_onto, ap, ◌∙◌, hex_digit,
  hex_value-hex_digit, ℕ, ◌+◌, ◌*◌, ◌/◌, ◌%◌, ◌<◌, ◌≡◌, refl, true, ◌&&◌, List, [], ◌∷◌, Option,
  none, some, ◌==◌, if◌then◌else◌, length, get_or, arith,
}
use cec_controller.Validate.{cec_physical_address_valid}

abbrev checked : Option ℕ → Option ℕ
checked none = none
checked (some value) = if cec_physical_address_valid value then some value else none

abbrev dot : ℕ
dot = 46

abbrev char_at : List ℕ → ℕ → ℕ
char_at text i = get_or text i 0

-- `none` is the result -1.
unfoldable pub cecctl_parse_physical_address : List ℕ → Option ℕ
unfolding hex_number
cecctl_parse_physical_address text =
    if length text == 7 && char_at text 1 == dot && char_at text 3 == dot && char_at text 5 == dot
    then checked
        (hex_number 0 (char_at text 0 ∷ char_at text 2 ∷ char_at text 4 ∷ char_at text 6 ∷ []))
    else if length text == 4
    then checked (hex_number 0 text)
    else none

unfoldable pub cecctl_format_physical_address : ℕ → List ℕ
unfolding hex_digit
cecctl_format_physical_address address =
    hex_digit (address / 4096 % 16)
    ∷ dot
    ∷ hex_digit (address / 256 % 16)
    ∷ dot
    ∷ hex_digit (address / 16 % 16)
    ∷ dot
    ∷ hex_digit (address % 16)
    ∷ []

hex_number-digits :
    (a b c d : ℕ)
    → a < 16
    → b < 16
    → c < 16
    → d < 16
    → hex_number 0 (hex_digit a ∷ hex_digit b ∷ hex_digit c ∷ hex_digit d ∷ [])
      ≡ some (((a * 16 + b) * 16 + c) * 16 + d)
unfolding hex_number
hex_number-digits a b c d p q r s = ground (
  arith,
  hex_value-hex_digit a p,
  hex_value-hex_digit b q,
  hex_value-hex_digit c r,
  hex_value-hex_digit d s,
)

-- A valid 16-bit address that is printed reads back as itself.
pub cecctl_parse-cecctl_format :
    (address : ℕ)
    → address < 65536
    → cec_physical_address_valid address ≡ true
    → cecctl_parse_physical_address (cecctl_format_physical_address address) ≡ some address
unfolding cecctl_parse_physical_address cecctl_format_physical_address
cecctl_parse-cecctl_format address h v = ground (
  arith,
  hex_number-digits (address / 4096 % 16) (address / 256 % 16) (address / 16 % 16) (address % 16)
      (omega arith) (omega arith) (omega arith) (omega arith),
)

checked-valid : (o : Option ℕ) (a : ℕ) → checked o ≡ some a → cec_physical_address_valid a ≡ true
checked-valid none a e = ground arith
checked-valid (some x) a e = ground arith

-- Any text: an address that is read is a valid one.
pub cecctl_parse-valid :
    (text : List ℕ) (address : ℕ)
    → cecctl_parse_physical_address text ≡ some address
    → cec_physical_address_valid address ≡ true
unfolding cecctl_parse_physical_address
cecctl_parse-valid text address e = ground (
  arith,
  checked-valid
      (hex_number 0 (char_at text 0 ∷ char_at text 2 ∷ char_at text 4 ∷ char_at text 6 ∷ []))
      address,
  checked-valid (hex_number 0 text) address,
)

parse-short :
    (text : List ℕ)
    → length text ≡ 4
    → cecctl_parse_physical_address text ≡ checked (hex_number 0 text)
unfolding cecctl_parse_physical_address
parse-short text h = rw h refl

-- The short form, without dots.
pub cecctl_parse-hex_text :
    (address : ℕ)
    → address < 65536
    → cec_physical_address_valid address ≡ true
    → cecctl_parse_physical_address (hex_text 4 address) ≡ some address
unfolding hex_number
cecctl_parse-hex_text address h v =
    parse-short (hex_text 4 address) (omega (arith, length-hex_onto 4 address []))
    ∙ ap checked (hex_number-hex_onto 4 0 address [] (omega arith))
    ∙ rw (zeros, v) refl
  where
    zeros : 0 * power 16 4 + address ≡ address
    zeros = omega arith
