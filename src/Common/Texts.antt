-- ===== src/Common/Texts.antt =====
-- Texts as lists of character codes, with what the C library does to them.
use Prim.Native.Nat.{ℕ, zero, suc, ◌+◌, ◌-◌, ◌*◌, ◌/◌, ◌%◌, ◌≤◌, ◌<◌}
use Prim.Native.Char.{code}
use Prim.Native.String.{String}
use mathlib.Core.Path.{◌≡◌, refl, ap, ◌∙◌}
use mathlib.Core.Bool.{Bool, true, false, ◌&&◌}
use mathlib.Core.Option.{Option, none, some}
use mathlib.Core.List.{List, [], ◌∷◌, ◌++◌}
use mathlib.Core.Logic.{inl, inr}
use native.Mathlib.Omega.{arith}
use cec_controller.Common.Tests.{leb, ltb, ◌==◌, if◌then◌else◌, Bool-cases}
use cec_controller.Common.Lists.{length, All}

abbrev pub Text : Type 0
Text = List ℕ

abbrev pub codes : String → Text
codes String.[] = []
codes (String.◌∷◌ c s) = code c ∷ codes s

-- strcmp, for equality.
unfoldable pub same_text : Text → Text → Bool
same_text [] [] = true
same_text (c ∷ s) (d ∷ t) = c == d && same_text s t
same_text _ _ = false

pub same_text_refl : (s : Text) → same_text s s ≡ true
unfolding same_text
same_text_refl [] = refl
same_text_refl (c ∷ s) = ground (arith, same_text_refl s)

pub same_text_eq : (s t : Text) → same_text s t ≡ true → s ≡ t
unfolding same_text
same_text_eq [] [] h = refl
same_text_eq [] (d ∷ t) h = ground arith
same_text_eq (c ∷ s) [] h = ground arith
same_text_eq (c ∷ s) (d ∷ t) h = ground (arith, same_text_eq s t)

-- strncmp over the length of the first text: the second one without it, if it begins so.
unfoldable pub strip_prefix : Text → Text → Option Text
strip_prefix [] t = some t
strip_prefix (c ∷ s) [] = none
strip_prefix (c ∷ s) (d ∷ t) = if c == d then strip_prefix s t else none

pub strip_prefix-append : (s t : Text) → strip_prefix s (s ++ t) ≡ some t
unfolding strip_prefix
strip_prefix-append [] t = refl
strip_prefix-append (c ∷ s) t = ground (arith, strip_prefix-append s t)

abbrev pub is_digit : ℕ → Bool
is_digit c = leb 48 c && leb c 57

-- isxdigit, with the value of the digit.
unfoldable pub hex_value : ℕ → Option ℕ
hex_value c =
    if is_digit c
    then some (c - 48)
    else if leb 97 c && leb c 102
    then some (c - 87)
    else if leb 65 c && leb c 70
    then some (c - 55)
    else none

-- A text of hexadecimal digits alone, behind which `value` has been read.
unfoldable pub hex_number : ℕ → Text → Option ℕ
unfolding hex_value
hex_number value [] = some value
hex_number value (c ∷ text) = elim (hex_value c) [
  | none ↦ none
  | some digit ↦ hex_number (value * 16 + digit) text
]

-- A text of decimal digits alone.
unfoldable pub decimal_number : ℕ → Text → Option ℕ
decimal_number value [] = some value
decimal_number value (c ∷ text) =
    if is_digit c then decimal_number (value * 10 + (c - 48)) text else none

unfoldable pub hex_digit : ℕ → ℕ
hex_digit n = if ltb n 10 then 48 + n else 87 + n

-- `k` hexadecimal digits of n, in front of a text: `%0<k>llx` for a number that has no more.
unfoldable pub hex_onto : ℕ → ℕ → Text → Text
unfolding hex_digit
hex_onto zero n rest = rest
hex_onto (suc k) n rest = hex_onto k (n / 16) (hex_digit (n % 16) ∷ rest)

-- %u, in front of a text, for a number of up to `fuel` digits.
unfoldable pub decimal_onto : ℕ → ℕ → Text → Text
decimal_onto zero n rest = rest
decimal_onto (suc fuel) n rest =
    let more = decimal_onto fuel (n / 10) ((48 + n % 10) ∷ rest) in
    if ltb n 10 then (48 + n) ∷ rest else more

abbrev pub hex_text : ℕ → ℕ → Text
hex_text k n = hex_onto k n []

-- A number of 32 bits has at most ten digits.
abbrev pub decimal_text : ℕ → Text
decimal_text n = decimal_onto 10 n []

pub hex_value-hex_digit : (n : ℕ) → n < 16 → hex_value (hex_digit n) ≡ some n
unfolding hex_value hex_digit
hex_value-hex_digit n h = ground arith

hex_number-step :
    (v n : ℕ) (rest : Text)
    → n < 16
    → hex_number v (hex_digit n ∷ rest) ≡ hex_number (v * 16 + n) rest
unfolding hex_number
hex_number-step v n rest h = ground (arith, hex_value-hex_digit n h)

abbrev pub power : ℕ → ℕ → ℕ
power b zero = 1
power b (suc k) = power b k * b

-- Hexadecimal digits read back as the number that they print.
pub hex_number-hex_onto :
    (k v n : ℕ) (rest : Text)
    → n < power 16 k
    → hex_number v (hex_onto k n rest) ≡ hex_number (v * power 16 k + n) rest
unfolding hex_onto
hex_number-hex_onto zero v n rest h = ap (λ m. hex_number m rest) (omega arith)
hex_number-hex_onto (suc k) v n rest h =
    hex_number-hex_onto k v (n / 16) (hex_digit (n % 16) ∷ rest) (omega arith)
    ∙ hex_number-step (v * power 16 k + n / 16) (n % 16) rest (omega arith)
    ∙ ap (λ m. hex_number m rest) (grind arith)

decimal_digit :
    (v n : ℕ) (rest : Text)
    → n < 10
    → decimal_number v ((48 + n) ∷ rest) ≡ decimal_number (v * 10 + n) rest
unfolding decimal_number
decimal_digit v n rest h = ground (arith, ap (λ m. decimal_number (v * 10 + m) rest) same)
  where
    same : 48 + n - 48 ≡ n
    same = omega arith

-- Decimal digits read back as the number that they print.
pub decimal_number-decimal_onto :
    (fuel n : ℕ) (rest : Text)
    → n < power 10 (suc fuel)
    → decimal_number 0 (decimal_onto (suc fuel) n rest) ≡ decimal_number n rest
unfolding decimal_onto
decimal_number-decimal_onto zero n rest h = ground (arith, decimal_digit 0 n rest)
decimal_number-decimal_onto (suc fuel) n rest h = elim (Bool-cases (ltb n 10)) [
  | inl small ↦
      rw small
        (decimal_digit 0 n rest (ground arith) ∙ ap (λ m. decimal_number m rest) (omega arith))
  | inr large ↦ rw large (
      decimal_number-decimal_onto fuel (n / 10) ((48 + n % 10) ∷ rest) (omega arith)
      ∙ decimal_digit (n / 10) (n % 10) rest (omega arith)
      ∙ ap (λ m. decimal_number m rest) (omega arith))
]

-- The characters of a text all have a property.
abbrev pub AllChars : (ℕ → Bool) → Text → Type 0
AllChars test text = All (λ c. test c ≡ true) text

-- A printed number has digits only, and at most as many as there is room for.
pub hex_onto-AllChars :
    (test : ℕ → Bool) (k n : ℕ) (rest : Text)
    → ((d : ℕ) → d < 16 → test (hex_digit d) ≡ true)
    → AllChars test rest
    → AllChars test (hex_onto k n rest)
unfolding hex_onto
hex_onto-AllChars test zero n rest digits h = h
hex_onto-AllChars test (suc k) n rest digits h =
    hex_onto-AllChars test k (n / 16) (hex_digit (n % 16) ∷ rest) digits
      (digits (n % 16) (omega arith), h)

pub decimal_onto-AllChars :
    (test : ℕ → Bool) (fuel n : ℕ) (rest : Text)
    → ((d : ℕ) → d < 10 → test (48 + d) ≡ true)
    → AllChars test rest
    → AllChars test (decimal_onto fuel n rest)
unfolding decimal_onto
decimal_onto-AllChars test zero n rest digits h = h
decimal_onto-AllChars test (suc fuel) n rest digits h = elim (Bool-cases (ltb n 10)) [
  | inl small ↦ rw small (digits n (ground arith), h)
  | inr large ↦ rw large (
      decimal_onto-AllChars test fuel (n / 10) ((48 + n % 10) ∷ rest) digits
        (digits (n % 10) (omega arith), h))
]

pub length-hex_onto : (k n : ℕ) (rest : Text) → length (hex_onto k n rest) ≡ k + length rest
unfolding hex_onto
length-hex_onto zero n rest = omega arith
length-hex_onto (suc k) n rest =
    omega (arith, length-hex_onto k (n / 16) (hex_digit (n % 16) ∷ rest))

pub length-decimal_onto :
    (fuel n : ℕ) (rest : Text)
    → (length rest ≤ length (decimal_onto fuel n rest))
      × (length (decimal_onto fuel n rest) ≤ fuel + length rest)
unfolding decimal_onto
length-decimal_onto zero n rest = omega arith
length-decimal_onto (suc fuel) n rest =
    ground (arith, length-decimal_onto fuel (n / 10) ((48 + n % 10) ∷ rest))
