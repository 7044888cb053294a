-- ===== src/Common/Loops.antt =====
-- A `while` loop whose body either leaves with a result or goes on with new variables.
use Prim.Native.Nat.{ℕ, zero, suc, ◌<◌}
use mathlib.Core.Path.{◌≡◌, refl, subst}
use mathlib.Core.Option.{Option, none, some}
use native.Mathlib.Omega.{arith}

pub data Outcome {ℓ κ} (L : Type ℓ) (R : Type κ) : Type (ℓ ⊔ κ) where
  again : L → Outcome L R
  leave : R → Outcome L R

-- `none` means that the fuel ran out.
unfoldable pub loop {ℓ κ} : {L : Type ℓ} {R : Type κ} → ℕ → (L → Outcome L R) → L → Option R
loop zero body l = none
loop (suc fuel) body l = elim (body l) [ again l' ↦ loop fuel body l' | leave r ↦ some r ]

-- What a turn hands over: P of the new variables, or Q of the result.
abbrev pub After {ℓ κ μ} :
    {L : Type ℓ} {R : Type κ} → (L → Type μ) → (R → Type μ) → Outcome L R → Type μ
After P Q (again l) = P l
After P Q (leave r) = Q r

module _ {ℓ κ μ} {L : Type ℓ} {R : Type κ} (P : L → Type μ) (Q : R → Type μ)
    (body : L → Outcome L R) where
  -- A loop invariant: whatever the fuel, a result that is reached has Q.
  pub loop_inv :
      ((l : L) → P l → After P Q (body l))
      → (fuel : ℕ) (l : L) → P l
      → {r : R} → loop fuel body l ≡ some r
      → Q r
  unfolding loop
  loop_inv keep zero l p e = cc
  loop_inv keep (suc fuel) l p {r} e =
      go (body l) (keep l p) (λ l' p' e'. loop_inv keep fuel l' p' e') e
    where
      go :
          (o : Outcome L R)
          → After P Q o
          → ((l' : L) → P l' → loop fuel body l' ≡ some r → Q r)
          → elim o [ again l' ↦ loop fuel body l' | leave r' ↦ some r' ] ≡ some r
          → Q r
      go (again l') p' ih e' = ih l' p' e'
      go (leave r') q ih e' = subst Q (cc) q

  -- Total correctness: with a measure that falls below the fuel there is a result, and it has Q.
  pub loop_total :
      (measure : L → ℕ)
      → ((l : L) → P l → After (λ l'. P l' × (measure l' < measure l)) Q (body l))
      → (fuel : ℕ) (l : L) → measure l < fuel
      → P l
      → (r : R) × (loop fuel body l ≡ some r) × Q r
  unfolding loop
  loop_total measure keep zero l m p = absurd (omega arith)
  loop_total measure keep (suc fuel) l m p =
      go (body l) (keep l p) (λ l' p' m'. loop_total measure keep fuel l' (omega arith) p')
    where
      go :
          (o : Outcome L R)
          → After (λ l'. P l' × (measure l' < measure l)) Q o
          → ((l' : L)
              → P l'
              → measure l' < measure l
              → (r : R) × (loop fuel body l' ≡ some r) × Q r)
          → (r : R) × (elim o [ again l' ↦ loop fuel body l' | leave r' ↦ some r' ] ≡ some r) × Q r
      go (again l') p' ih = ih l' p'.0 p'.1
      go (leave r') q ih = (r', refl, q)

-- There is a result, and it has P.
abbrev pub Returns {ℓ} : {A : Type ℓ} → (A → Type 0) → Option A → Type 0
Returns P none = ⊥
Returns P (some a) = P a
