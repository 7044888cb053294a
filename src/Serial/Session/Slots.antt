-- ===== src/Serial/Session/Slots.antt =====
-- The ring of results as the last eight requests that ended.
use cec_controller.Common.{
  ℕ, zero, suc, ◌+◌, ◌-◌, ◌%◌, ◌<◌, ◌≡◌, ◌≢◌, refl, sym, ap, ◌∙◌, false, List, [], ◌∷◌, ◌⊎◌, inl,
  inr, arith, ◌==◌, length, get_or, replicate, Bool-cases, set, get_or-set_self, get_or-set_ne,
}
use cec_controller.Serial.{Retained, not_retained, result_count}
use cec_controller.Serial.Command.{find_retained}

-- The slot of the result that was kept `i` results ago.
abbrev pub slot : ℕ → ℕ → ℕ
slot next i = (next + 7 - i) % 8

abbrev pub ended_at : List Retained → ℕ → Retained
ended_at ended i = get_or ended i not_retained

-- The last eight requests that ended are in the ring.
abbrev pub Holds : List Retained → ℕ → List Retained → Type 0
Holds ring next ended = (i : ℕ) → i < 8 → get_or ring (slot next i) not_retained ≡ ended_at ended i

-- None of the last eight requests that ended has the id.
abbrev pub New : ℕ → List Retained → Type 0
New id ended = (i : ℕ) → i < 8 → (ended_at ended i).request.id ≢ id

-- The ids of the last eight requests that ended differ, but for an id 0.
abbrev pub Distinct : List Retained → Type 0
Distinct ended =
    (i j : ℕ)
    → i < j
    → j < 8
    → (ended_at ended i).request.id ≢ 0
    → (ended_at ended j).request.id ≢ (ended_at ended i).request.id

-- A result in any slot is found under its id.
pub find_retained-slot :
    (ring : List Retained) (i id : ℕ)
    → i < length ring
    → (get_or ring i not_retained).request.id ≡ id
    → (find_retained id ring).request.id ≡ id
unfolding find_retained
find_retained-slot [] i id h e = absurd (omega arith)
find_retained-slot (x ∷ ring) zero id h e = ground arith
find_retained-slot (x ∷ ring) (suc i) id h e =
    ground (arith, find_retained-slot ring i id (omega arith) e)

pub retain-Holds :
    (ring : List Retained) (next : ℕ) (ended : List Retained) (entry : Retained)
    → length ring ≡ 8
    → next < 8
    → Holds ring next ended
    → Holds (set ring next entry) ((next + 1) % 8) (entry ∷ ended)
retain-Holds ring next ended entry e n h zero a =
    ap (λ j. get_or (set ring next entry) j not_retained) same
    ∙ get_or-set_self ring next entry not_retained (omega arith)
  where
    same : slot ((next + 1) % 8) 0 ≡ next
    same = omega arith
retain-Holds ring next ended entry e n h (suc i) a =
    ap (λ j. get_or (set ring next entry) j not_retained) same
    ∙ get_or-set_ne ring next (slot next i) entry not_retained other
    ∙ h i (omega arith)
  where
    same : slot ((next + 1) % 8) (suc i) ≡ slot next i
    same = omega arith

    other : next ≢ slot next i
    other = omega arith

pub cons-Distinct :
    (entry : Retained) (ended : List Retained)
    → Distinct ended
    → (entry.request.id ≢ 0 → New entry.request.id ended)
    → Distinct (entry ∷ ended)
cons-Distinct entry ended d new i zero a b e = absurd (omega arith)
cons-Distinct entry ended d new zero (suc j) a b e = new e j (omega arith)
cons-Distinct entry ended d new (suc i) (suc j) a b e = d i j (omega arith) (omega arith) e

get_or-replicate : (n k : ℕ) (x : Retained) → get_or (replicate n x) k x ≡ x
get_or-replicate zero k x = refl
get_or-replicate (suc n) zero x = refl
get_or-replicate (suc n) (suc k) x = get_or-replicate n k x

pub empty_slot :
    (k : ℕ) → get_or (replicate result_count not_retained) k not_retained ≡ not_retained
empty_slot k = get_or-replicate result_count k not_retained

find_retained-skip :
    (x : Retained) (ring : List Retained) (id : ℕ)
    → x.request.id == id ≡ false
    → find_retained id (x ∷ ring) ≡ find_retained id ring
unfolding find_retained
find_retained-skip x ring id other = rw other refl

suc_lt : {m n : ℕ} → m < n → suc m < suc n
suc_lt h = omega arith

-- What is found under an id other than 0 is in a slot.
pub find_retained-found :
    (ring : List Retained) (id : ℕ)
    → id ≢ 0
    → (find_retained id ring).request.id ≡ id
    → (j : ℕ) × (j < length ring) × (get_or ring j not_retained ≡ find_retained id ring)
unfolding find_retained
find_retained-found [] id nz e = absurd (nz (sym e))
find_retained-found (x ∷ ring) id nz e = elim (Bool-cases (x.request.id == id)) [
  | inl same ↦ (zero, omega arith, rw same refl)
  | inr other ↦
      let skip = find_retained-skip x ring id other in
      let r = find_retained-found ring id nz (sym (ap (λ (y : Retained). y.request.id) skip) ∙ e) in
      (suc r.0, suc_lt r.1, r.2 ∙ sym skip)
]

pub back : (next j : ℕ) → next < 8 → j < 8 → j ≡ slot next (slot next j)
back next j a b = omega arith

pub within : (next j : ℕ) → slot next j < 8
within next j = omega arith

pub order : (m n : ℕ) → (m < n) ⊎ ((m ≡ n) ⊎ (n < m))
order m n = omega arith
