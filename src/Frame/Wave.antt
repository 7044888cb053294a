-- ===== src/Frame/Wave.antt =====
-- The shape of a CEC frame on the line, by the nominal timings of the standard: what a sender should
-- put on the line and what a receiver should read from it. The code has no counterpart.
use cec_controller.Common.{
  suc, ◌*◌, ◌≡◌, ap, ◌∙◌, length, arith, ℕ, ◌+◌, ◌/◌, ◌%◌, Bool, true, false, List, [], ◌∷◌, ◌++◌,
  ◌==◌,
}

-- A change of the line: when, and whether it falls.
pub record Change : Type 0 where
  pub at : ℕ
  pub falls : Bool

abbrev pub low_time : Bool → ℕ
low_time true = 600
low_time false = 1500

-- A bit begins with a fall; the time to the rise tells its value.
abbrev pub bit_wave : ℕ → Bool → List Change
bit_wave t one =
    record { at = t; falls = true } ∷ record { at = t + low_time one; falls = false } ∷ []

-- Bits follow one another after 2.4 ms.
unfoldable pub wave : ℕ → List Bool → List Change
wave t [] = []
wave t (b ∷ bs) =
    record { at = t; falls = true }
    ∷ record { at = t + low_time b; falls = false }
    ∷ wave (t + 2400) bs

abbrev pub bit_set : ℕ → ℕ → Bool
bit_set x place = x / place % 2 == 1

abbrev pub lower_bits : ℕ → List Bool
lower_bits x =
    bit_set x 64
    ∷ bit_set x 32
    ∷ bit_set x 16
    ∷ bit_set x 8
    ∷ bit_set x 4
    ∷ bit_set x 2
    ∷ bit_set x 1
    ∷ []

-- The bits of a byte, the highest first.
abbrev pub byte_bits : ℕ → List Bool
byte_bits x = bit_set x 128 ∷ lower_bits x

-- Each byte is followed by the end-of-message bit and by the acknowledge bit. A sender writes the
-- acknowledge bit as 1, and a receiver that is addressed holds the line, which makes it a 0.
unfoldable pub frame_bits : Bool → ℕ → List ℕ → List Bool
frame_bits ack x [] = byte_bits x ++ true ∷ ack ∷ []
frame_bits ack x (y ∷ ys) = byte_bits x ++ false ∷ ack ∷ frame_bits ack y ys

-- A frame begins with a fall of 3.7 ms and its first bit comes 4.5 ms after that.
unfoldable pub frame_wave : Bool → ℕ → ℕ → List ℕ → List Change
unfolding frame_bits
frame_wave ack t x xs =
    record { at = t; falls = true }
    ∷ record { at = t + 3700; falls = false }
    ∷ wave (t + 4500) (frame_bits ack x xs)

-- A wave is cut where its bits are.
pub wave-append :
    (t : ℕ) (xs ys : List Bool) → wave t (xs ++ ys) ≡ wave t xs ++ wave (t + 2400 * length xs) ys
unfolding wave
wave-append t [] ys = let same : t ≡ t + 2400 * 0 = omega arith in ap (λ s. wave s ys) same
wave-append t (x ∷ xs) ys =
    let same : t + 2400 + 2400 * length xs ≡ t + 2400 * suc (length xs) = omega arith in
    ap (λ w. record { at = t; falls = true } ∷ record { at = t + low_time x; falls = false } ∷ w)
      (wave-append (t + 2400) xs ys ∙ ap (λ s. wave (t + 2400) xs ++ wave s ys) same)
