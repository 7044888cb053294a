-- ===== src/Host/Resolve/Parts.antt =====
-- The tests on a part of a text (host/src/main.c: strstr in discover_address, strncmp in
-- connector_is_connected).
use cec_controller.Common.{
  ◌≡◌, refl, ap, Bool-cases, [], ◌∷◌, ◌++◌, ◌==◌, Option, none, some, is_some, Text, strip_prefix,
  strip_prefix-append, true, inl, inr, arith,
}
use mathlib.Core.Bool.{false≢true}
use cec_controller.Host.Discovery.{has_part}

-- A part of a text, found and not found.
pub strip_prefix-back :
    (part text rest : Text) → strip_prefix part text ≡ some rest → text ≡ part ++ rest
unfolding strip_prefix
strip_prefix-back [] text rest h = ground arith
strip_prefix-back (c ∷ part) [] rest h = ground arith
strip_prefix-back (c ∷ part) (d ∷ text) rest h = elim (Bool-cases (c == d)) [
  | inl same ↦ let e = strip_prefix-back part text rest (rw same at h) in ground (arith, e)
  | inr other ↦ absurd (ground arith)
]

pub is_some-rest : {A : Type 0} (o : Option A) → is_some o ≡ true → (a : A) × (o ≡ some a)
is_some-rest none h = absurd (false≢true h)
is_some-rest (some a) h = (a, refl)

unfoldable pub Split : Text → Text → Type 0
Split part text = (front : Text) × (back : Text) × (text ≡ front ++ (part ++ back))

pub has_part-Split : (part text : Text) → has_part part text ≡ true → Split part text
unfolding has_part Split
has_part-Split part [] h =
    let (rest, e) = is_some-rest (strip_prefix part []) h in
    ([], rest, strip_prefix-back part [] rest e)
has_part-Split part (c ∷ text) h = elim (Bool-cases (is_some (strip_prefix part (c ∷ text)))) [
  | inl here ↦
      let (rest, e) = is_some-rest (strip_prefix part (c ∷ text)) here in
      ([], rest, strip_prefix-back part (c ∷ text) rest e)
  | inr later ↦
      let (front, back, e) = has_part-Split part text (ground arith) in
      (c ∷ front, back, ap (λ t. c ∷ t) e)
]

pub has_part-front : (part front back : Text) → has_part part (front ++ (part ++ back)) ≡ true
unfolding has_part
has_part-front part [] back = at_front (part ++ back) (strip_prefix-append part back)
  where
    at_front : (text : Text) → strip_prefix part text ≡ some back → has_part part text ≡ true
    at_front [] e = rw e refl
    at_front (c ∷ text) e = rw e refl
has_part-front part (c ∷ front) back = ground (arith, has_part-front part front back)
