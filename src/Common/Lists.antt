-- ===== src/Common/Lists.antt =====
-- Lists measured and indexed by native numbers, under the library's names.
use Prim.Native.Nat.{ℕ, zero, suc, ◌+◌, ◌-◌, ◌<◌, min}
use mathlib.Core.Logic.{◌≢◌}
use mathlib.Core.Path.{◌≡◌, refl, ap}
use mathlib.Core.Bool.{Bool, true, ◌&&◌}
use mathlib.Core.List.{List, [], ◌∷◌, ◌++◌}
use mathlib.Core.Option.{Option, none, some}
use native.Mathlib.Omega.{arith}

module _ {ℓ} {A : Type ℓ} where
  abbrev pub length : List A → ℕ
  length [] = 0
  length (x ∷ xs) = suc (length xs)

  abbrev pub get_elem? : List A → ℕ → Option A
  get_elem? [] i = none
  get_elem? (x ∷ xs) zero = some x
  get_elem? (x ∷ xs) (suc i) = get_elem? xs i

  abbrev pub get_or : List A → ℕ → A → A
  get_or [] i d = d
  get_or (x ∷ xs) zero d = x
  get_or (x ∷ xs) (suc i) d = get_or xs i d

  -- A write out of bounds changes nothing.
  abbrev pub set : List A → ℕ → A → List A
  set [] i v = []
  set (x ∷ xs) zero v = v ∷ xs
  set (x ∷ xs) (suc i) v = x ∷ set xs i v

  abbrev pub take : ℕ → List A → List A
  take zero xs = []
  take (suc n) [] = []
  take (suc n) (x ∷ xs) = x ∷ take n xs

  abbrev pub drop : ℕ → List A → List A
  drop zero xs = xs
  drop (suc n) [] = []
  drop (suc n) (x ∷ xs) = drop n xs

  abbrev pub replicate : ℕ → A → List A
  replicate zero a = []
  replicate (suc n) a = a ∷ replicate n a

  -- The first n items, filled up with `d`.
  abbrev pub pad : ℕ → A → List A → List A
  pad zero d xs = []
  pad (suc n) d [] = d ∷ pad n d []
  pad (suc n) d (x ∷ xs) = x ∷ pad n d xs

  pub length-append : (xs ys : List A) → length (xs ++ ys) ≡ length xs + length ys
  length-append [] ys = omega arith
  length-append (x ∷ xs) ys = omega (arith, length-append xs ys)

  pub length-pad : (n : ℕ) (d : A) (xs : List A) → length (pad n d xs) ≡ n
  length-pad zero d xs = refl
  length-pad (suc n) d [] = ap suc (length-pad n d [])
  length-pad (suc n) d (x ∷ xs) = ap suc (length-pad n d xs)

  pub length-set : (xs : List A) (i : ℕ) (v : A) → length (set xs i v) ≡ length xs
  length-set [] i v = refl
  length-set (x ∷ xs) zero v = refl
  length-set (x ∷ xs) (suc i) v = ap suc (length-set xs i v)

  pub get_or-set_self :
      (xs : List A) (i : ℕ) (v d : A) → i < length xs → get_or (set xs i v) i d ≡ v
  get_or-set_self [] i v d h = elim h [ ]
  get_or-set_self (x ∷ xs) zero v d h = refl
  get_or-set_self (x ∷ xs) (suc i) v d h = get_or-set_self xs i v d (omega arith)

  pub get_or-set_ne :
      (xs : List A) (i j : ℕ) (v d : A) → i ≢ j → get_or (set xs i v) j d ≡ get_or xs j d
  get_or-set_ne [] i j v d h = refl
  get_or-set_ne (x ∷ xs) zero zero v d h = absurd (h refl)
  get_or-set_ne (x ∷ xs) zero (suc j) v d h = refl
  get_or-set_ne (x ∷ xs) (suc i) zero v d h = refl
  get_or-set_ne (x ∷ xs) (suc i) (suc j) v d h = get_or-set_ne xs i j v d (λ e. h (ap suc e))

  pub set-set : (xs : List A) (i : ℕ) (v w : A) → set (set xs i v) i w ≡ set xs i w
  set-set [] i v w = refl
  set-set (x ∷ xs) zero v w = refl
  set-set (x ∷ xs) (suc i) v w = ap (◌∷◌ x) (set-set xs i v w)

  pub set-pad :
      (n : ℕ) (d : A) (xs : List A) (v : A)
      → length xs < n
      → set (pad n d xs) (length xs) v ≡ pad n d (xs ++ v ∷ [])
  set-pad zero d xs v h = elim h [ ]
  set-pad (suc n) d [] v h = refl
  set-pad (suc n) d (x ∷ xs) v h = ap (◌∷◌ x) (set-pad n d xs v (omega arith))

  pub set-pad_default :
      (n : ℕ) (d : A) (xs : List A) → length xs < n → set (pad n d xs) (length xs) d ≡ pad n d xs
  set-pad_default zero d xs h = elim h [ ]
  set-pad_default (suc n) d [] h = refl
  set-pad_default (suc n) d (x ∷ xs) h = ap (◌∷◌ x) (set-pad_default n d xs (omega arith))

  pub get_or-pad :
      (n : ℕ) (d : A) (xs : List A) → length xs < n → get_or (pad n d xs) (length xs) d ≡ d
  get_or-pad zero d xs h = elim h [ ]
  get_or-pad (suc n) d [] h = refl
  get_or-pad (suc n) d (x ∷ xs) h = get_or-pad n d xs (omega arith)

  pub get_or-pad_append :
      (n : ℕ) (d : A) (xs : List A) (v : A) (ys : List A)
      → length xs < n
      → get_or (pad n d (xs ++ v ∷ ys)) (length xs) d ≡ v
  get_or-pad_append zero d xs v ys h = elim h [ ]
  get_or-pad_append (suc n) d [] v ys h = refl
  get_or-pad_append (suc n) d (x ∷ xs) v ys h = get_or-pad_append n d xs v ys (omega arith)

  pub length-drop : (n : ℕ) (xs : List A) → length (drop n xs) ≡ length xs - n
  length-drop zero xs = omega arith
  length-drop (suc n) [] = omega arith
  length-drop (suc n) (x ∷ xs) = omega (arith, length-drop n xs)

  pub length-take : (n : ℕ) (xs : List A) → length (take n xs) ≡ min n (length xs)
  length-take zero xs = omega arith
  length-take (suc n) [] = omega arith
  length-take (suc n) (x ∷ xs) = omega (arith, length-take n xs)

-- Every item has the property: a predicate by recursion, which the tactics read as a tuple.
abbrev pub All {ℓ κ} : {A : Type ℓ} → (A → Type κ) → List A → Type κ
All P [] = Unit
All P (x ∷ xs) = P x × All P xs

-- Two lists one after the other.
pub All-append {ℓ κ} :
    {A : Type ℓ} (P : A → Type κ) (front back : List A)
    → All P front
    → All P back
    → All P (front ++ back)
All-append P [] back start rest = rest
All-append P (item ∷ front) back (first, start) rest = (first, All-append P front back start rest)

-- Whether a test holds of every number below a limit, by evaluation.
unfoldable pub all_below : ℕ → (ℕ → Bool) → Bool
all_below zero test = true
all_below (suc limit) test = all_below limit test && test limit

pub all_below_sound :
    (limit : ℕ) (test : ℕ → Bool) (k : ℕ) → all_below limit test ≡ true → k < limit → test k ≡ true
unfolding all_below
all_below_sound zero test k passed small = absurd (omega arith)
all_below_sound (suc limit) test k passed small = ground (arith, all_below_sound limit test k)
