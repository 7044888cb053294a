-- ===== src/Common/Digits.antt =====
-- Numbers with no binary digit in common: `bit_or` adds them.
use Prim.Native.Nat.{ℕ, zero, suc, ◌+◌, ◌*◌, ◌/◌, ◌≤◌, ◌<◌, max, bit_or, digits, bit_or-bitwise}
use mathlib.Core.Path.{◌≡◌, refl, ap, ◌∙◌}
use native.Mathlib.Omega.{arith}

-- On any sufficient count of digits, the two numbers are added.
abbrev Adds : ℕ → ℕ → Type 0
Adds x b = (n : ℕ) → x ≤ n → digits (λ b. b) max n x b ≡ x + b

nothing-Adds : (x b : ℕ) → b ≡ 0 → Adds x b
nothing-Adds x zero e = count x
  where
    count : (x n : ℕ) → x ≤ n → digits (λ b. b) max n x 0 ≡ x + 0
    count zero zero h = refl
    count zero (suc n) h = refl
    count (suc x) zero h = absurd (omega arith)
    count (suc x) (suc n) h = omega (arith, count (suc x / 2) n (omega arith))
nothing-Adds x (suc b) e = absurd (omega arith)

even-Adds : (x y b : ℕ) → x ≡ y + y → Adds y (b / 2) → Adds x b
even-Adds zero y b e half zero h = omega arith
even-Adds zero y b e half (suc n) h = omega arith
even-Adds (suc x) y b e half zero h = absurd (omega arith)
even-Adds (suc x) y b e half (suc n) h =
    let same : suc x / 2 ≡ y = omega arith in
    omega (arith, ap (λ z. digits (λ b. b) max n z (b / 2)) same, half n (omega arith))

-- A byte below a number.
pub bit_or-byte : (a b : ℕ) → b < 256 → bit_or (a * 256) b ≡ a * 256 + b
bit_or-byte a b h = bit_or-bitwise (a * 256) b ∙ all_digits (a * 256) (omega arith)
  where
    all_digits : Adds (a * 256) b
    all_digits = even-Adds _ (a * 128) b (omega arith) (
        even-Adds _ (a * 64) _ (omega arith) (
          even-Adds _ (a * 32) _ (omega arith) (
            even-Adds _ (a * 16) _ (omega arith) (
              even-Adds _ (a * 8) _ (omega arith) (
                even-Adds _ (a * 4) _ (omega arith) (
                  even-Adds _ (a * 2) _ (omega arith)
                    (even-Adds _ a _ (omega arith) (nothing-Adds a _ (omega arith)))))))))
