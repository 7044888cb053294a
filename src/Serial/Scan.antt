-- ===== src/Serial/Scan.antt =====
-- Printed hexadecimal digits, as sscanf reads them (src/usb-cdc.c, the conversions of exec_tv).
use cec_controller.Common.{
  ℕ, ◌+◌, ◌*◌, ◌≤◌, ◌<◌, ◌≡◌, refl, ap, ◌∙◌, sym, ◌==◌, ◌||◌, true, false, ◌&&◌, [], ◌∷◌, none,
  some, Option-cases, inl, inr, Text, AllChars, hex_value, hex_number, hex_digit, length, hex_text,
  hex_onto-AllChars, length-hex_onto, hex_number-hex_onto, power, arith,
}
use cec_controller.Serial.{
  scan_hex, scan_digits, scan_unsigned, scan_signed, skip_0x, skip_blanks, is_hex, is_blank,
  greatest,
}

no_digit :
    (c : ℕ) (text : Text) (value : ℕ) → hex_value c ≡ none → hex_number value (c ∷ text) ≡ none
unfolding hex_number
no_digit c text value e = rw (hex_number, e) refl

one_digit :
    (c : ℕ) (text : Text) (value d : ℕ)
    → hex_value c ≡ some d
    → hex_number value (c ∷ text) ≡ hex_number (value * 16 + d) text
unfolding hex_number
one_digit c text value d e = rw (hex_number, e) refl

no_more : (value v : ℕ) → hex_number value [] ≡ some v → value ≡ v
unfolding hex_number
no_more value v h = ground arith

scan_digits-hex_number :
    (text : Text) (value v : ℕ) → hex_number value text ≡ some v → scan_digits value text ≡ (v, [])
unfolding scan_digits
scan_digits-hex_number [] value v h = ap (λ n. (n, [])) (no_more value v h)
scan_digits-hex_number (c ∷ text) value v h = elim (Option-cases (hex_value c)) [
  | inl e ↦ absurd (none-some v (sym (no_digit c text value e) ∙ h))
  | inr (d, e) ↦
      rw (scan_digits, e)
        (scan_digits-hex_number text (value * 16 + d) v (sym (one_digit c text value d e) ∙ h))
]
  where
    none-some : (v : ℕ) → none ≡ some v → ⊥
    none-some v h = ground arith

-- A digit is no blank and no sign.
hex_dark :
    (c : ℕ) → is_hex c ≡ true → (is_blank c ≡ false) × ((c == 43) ≡ false) × ((c == 45) ≡ false)
unfolding hex_value
hex_dark c h = (ground arith, ground arith, ground arith)

skip_0x-hex : (a b : ℕ) (text : Text) → is_hex b ≡ true → skip_0x (a ∷ b ∷ text) ≡ a ∷ b ∷ text
unfolding skip_0x hex_value
skip_0x-hex a b text hb = rw other refl
  where
    other : (a == 48 && (b == 120 || b == 88)) ≡ false
    other = ground arith

pub scan_hex-hex_number :
    (a b : ℕ) (text : Text) (v : ℕ)
    → is_hex a ≡ true
    → is_hex b ≡ true
    → hex_number 0 (a ∷ b ∷ text) ≡ some v
    → v ≤ greatest
    → scan_hex (a ∷ b ∷ text) ≡ some (v, [])
unfolding scan_hex scan_signed skip_blanks scan_unsigned
scan_hex-hex_number a b text v ha hb h small =
    rw
      (
        scan_hex,
        skip_blanks,
        dark,
        scan_signed,
        plus,
        minus,
        scan_unsigned,
        skip_0x-hex a b text hb,
        ha,
        scan_digits-hex_number (a ∷ b ∷ text) 0 v h,
      )
      (ap (λ n. some (n, [])) (ground (arith, small)))
  where
    dark : is_blank a ≡ false
    dark = (hex_dark a ha).0

    plus : (a == 43) ≡ false
    plus = (hex_dark a ha).1

    minus : (a == 45) ≡ false
    minus = (hex_dark a ha).2

-- Sixteen or fewer bits in four digits.
is_hex-digit : (d : ℕ) → d < 16 → is_hex (hex_digit d) ≡ true
unfolding hex_digit hex_value
is_hex-digit d h = ground arith

hex_pair :
    (text : Text) (v : ℕ)
    → AllChars is_hex text
    → 2 ≤ length text
    → hex_number 0 text ≡ some v
    → v ≤ greatest
    → scan_hex text ≡ some (v, [])
hex_pair [] v h n e small = absurd (omega arith)
hex_pair (a ∷ []) v h n e small = absurd (omega arith)
hex_pair (a ∷ b ∷ text) v (ha, (hb, h)) n e small = scan_hex-hex_number a b text v ha hb e small

pub scan_hex-hex_text : (n : ℕ) → n < 65536 → scan_hex (hex_text 4 n) ≡ some (n, [])
unfolding hex_number
scan_hex-hex_text n h =
    hex_pair (hex_text 4 n) n (hex_onto-AllChars is_hex 4 n [] is_hex-digit tt)
      (omega (arith, length-hex_onto 4 n []))
      (hex_number-hex_onto 4 0 n [] (omega arith)
        ∙ ap some {x = 0 * power 16 4 + n} {y = n} (omega arith))
      (omega arith)
