-- ===== src/Ddc/Laws.antt =====
-- Which addresses the search of the firmware can find.
use cec_controller.Common.{
  ℕ, zero, suc, ◌+◌, ◌*◌, ◌%◌, ◌≤◌, ◌<◌, ◌≡◌, refl, sym, subst, bit_or-byte, ap, ◌∙◌, Bool, true,
  false, not, List, [], ◌∷◌, Option, none, some, leb, ltb, ◌==◌, if◌then◌else◌, u8, u16, bit_or,
  length, get_or, get_elem?, arith, Bool-cases, inl, inr,
}
use cec_controller.Ddc.{
  Search, address, fault, endless, same_at, address_at, find_physical_address, or_else, data_blocks,
  with_match, edid_header, ctahdr, search_extension, search_edid, read_edid_block, checked_block,
  verify, get_physical_address, ddc_get_physical_address,
}

-- An address has 16 bits, of which the lower 8 are 0; the loop always ends.
abbrev pub Rounded : Search → Type 0
Rounded (address a) = (a < 65536) × (a % 256 ≡ 0)
Rounded fault = Unit
Rounded endless = ⊥

no_address : Rounded (address 0)
no_address = (omega arith, refl)

elem-step :
    (edid : List ℕ) (at c : ℕ) (cs : List ℕ)
    → same_at edid at (c ∷ cs) ≡ some true
    → (get_elem? edid at ≡ some c) × (same_at edid (at + 1) cs ≡ some true)
unfolding same_at
elem-step edid at c cs h = ground (arith, h)

third_byte :
    (edid : List ℕ) (at a b c : ℕ)
    → same_at edid at (a ∷ b ∷ c ∷ []) ≡ some true
    → get_elem? edid (at + 1 + 1) ≡ some c
third_byte edid at a b c h =
    (elem-step edid (at + 1 + 1) c []
      ((elem-step edid (at + 1) b (c ∷ []) ((elem-step edid at a (b ∷ c ∷ []) h).1)).1)).0

address_at-Rounded : (low high : Option ℕ) → low ≡ some 0 → Rounded (address_at low high)
address_at-Rounded none high e = tt
address_at-Rounded (some low) none e = tt
address_at-Rounded (some low) (some high) e =
    subst (λ x. Rounded (address_at x (some high))) (sym e) (omega arith, zeros)
  where
    zeros : u16 (bit_or (high * 256) 0) % 256 ≡ 0
    zeros = omega (arith, bit_or-byte high 0 (omega arith))

compared-Rounded :
    (found : Option Bool) (low high : Option ℕ)
    → (found ≡ some true → low ≡ some 0)
    → Rounded (elim found [
      | none ↦ Search.fault
      | some false ↦ Search.address 0
      | some true ↦ address_at low high
    ])
compared-Rounded none low high e = tt
compared-Rounded (some false) low high e = (omega arith, refl)
compared-Rounded (some true) low high e = address_at-Rounded low high (e refl)

find_physical_address-Rounded :
    (edid : List ℕ) (block len : ℕ) → Rounded (find_physical_address edid block len)
unfolding find_physical_address
find_physical_address-Rounded edid block len = elim (Bool-cases (ltb len 4)) [
  | inl short ↦ rw short (omega arith, refl)
  | inr long ↦ rw long (
      compared-Rounded (same_at edid (block + 1) (0x03 ∷ 0x0c ∷ 0x00 ∷ [])) _ _
        (λ e. ap (get_elem? edid) same_place ∙ third_byte edid (block + 1) 0x03 0x0c 0x00 e))
]
  where
    same_place : block + 3 ≡ block + 1 + 1 + 1
    same_place = omega arith

or_else-Rounded :
    (found rest : Search) → Rounded found → Rounded rest → Rounded (or_else found rest)
or_else-Rounded fault rest f r = tt
or_else-Rounded endless rest f r = f
or_else-Rounded (address a) rest f r = elim (Bool-cases (a == 0)) [
  | inl zero_address ↦ rw zero_address r
  | inr found ↦ rw found f
]

outside : (edid : List ℕ) (n : ℕ) → length edid ≤ n → get_elem? edid n ≡ none
outside [] n h = refl
outside (x ∷ edid) zero h = absurd (omega (arith, h))
outside (x ∷ edid) (suc n) h = outside edid n (omega (arith, h))

-- A turn of the loop, for the byte at its place and what follows it.
turn-Rounded :
    (byte : Option ℕ) (found : ℕ → Search)
    → ((b : ℕ) → byte ≡ some b → Rounded (found b))
    → Rounded (elim byte [ none ↦ Search.fault | some b ↦ found b ])
turn-Rounded none found h = tt
turn-Rounded (some b) found h = h b refl

choice-Rounded :
    (test : Bool) (a b : Search) → Rounded a → Rounded b → Rounded (if test then a else b)
choice-Rounded true a b x y = x
choice-Rounded false a b x y = y

small : (j : ℕ) → j ≤ 159 → j ≡ u8 j
small j h = omega (arith, h)

data_blocks-turn :
    (fuel : ℕ) (edid : List ℕ) (dtd_start i : ℕ)
    → length edid ≤ 256
    → ((j : ℕ) → j ≤ 159 → suc i ≤ j → Rounded (data_blocks fuel edid dtd_start (u8 j)))
    → Rounded (data_blocks (suc fuel) edid dtd_start i)
unfolding data_blocks
data_blocks-turn fuel edid dtd_start i l next =
    choice-Rounded (leb dtd_start i) _ _ no_address (elim (Bool-cases (leb 128 i)) [
      | inl behind ↦ rw (outside edid (128 + i) (ground (arith, l, behind))) tt
      | inr inside ↦ turn-Rounded (get_elem? edid (128 + i)) _ (λ db e.
          choice-Rounded (db % 32 == 0) _ _ (next (i + 1) (ground (arith, inside)) (omega arith)) (
            or_else-Rounded _ _ (find_physical_address-Rounded edid (128 + i) (db % 32))
              (next (i + db % 32 + 1) (ground (arith, inside)) (omega arith))))
    ])

-- The loop faults behind the array, before its counter can go round.
data_blocks-Rounded :
    (fuel : ℕ) (edid : List ℕ) (dtd_start i : ℕ)
    → length edid ≤ 256
    → 160 ≤ fuel + i
    → i ≤ 159
    → Rounded (data_blocks fuel edid dtd_start i)
data_blocks-Rounded zero edid dtd_start i l h k = absurd (omega (arith, h, k))
data_blocks-Rounded (suc fuel) edid dtd_start i l h k =
    data_blocks-turn fuel edid dtd_start i l (λ j a b.
      subst (λ n. Rounded (data_blocks fuel edid dtd_start n)) (small j a)
        (data_blocks-Rounded fuel edid dtd_start j l (omega (arith, h, b)) a))

with_match-Rounded :
    (m : Option Bool) (found : Search) → Rounded found → Rounded (with_match m found)
with_match-Rounded none found h = tt
with_match-Rounded (some false) found h = (omega arith, refl)
with_match-Rounded (some true) found h = h

search_extension-Rounded : (edid : List ℕ) → length edid ≤ 256 → Rounded (search_extension edid)
unfolding search_extension
search_extension-Rounded edid l =
    let start = get_or edid 130 0 in
    with_match-Rounded (same_at edid 128 ctahdr) (data_blocks 256 edid start 4)
      (data_blocks-Rounded 256 edid start 4 l (omega arith) (omega arith))

search_edid-Rounded : (edid : List ℕ) → length edid ≤ 256 → Rounded (search_edid edid)
unfolding search_edid
search_edid-Rounded edid l =
    with_match-Rounded (same_at edid 0 edid_header)
      (if get_or edid 126 0 == 0 then Search.address 0 else search_extension edid)
      (choice-Rounded (get_or edid 126 0 == 0) (Search.address 0) (search_extension edid) no_address
        (search_extension-Rounded edid l))

read_edid_block-Rounded :
    (failed : Bool) (bytes : List ℕ)
    → length bytes ≤ 256
    → Rounded (elim (if failed then none else checked_block bytes) [
      | none ↦ Search.address 0
      | some edid ↦ search_edid edid
    ])
read_edid_block-Rounded true bytes l = no_address
read_edid_block-Rounded false bytes l = elim (Bool-cases (verify bytes)) [
  | inl good ↦ rw good (search_edid-Rounded bytes l)
  | inr bad ↦ rw bad no_address
]

-- For every result of the reset and of the transfer into an array of 256 bytes: the search ends, and
-- it either reads outside of the array or returns an address of 16 bits whose lower 8 bits are 0.
pub ddc_get_physical_address-IsRounded :
    (reset ret : ℕ) (bytes : List ℕ)
    → length bytes ≤ 256
    → Rounded (ddc_get_physical_address reset (ret, bytes))
unfolding ddc_get_physical_address get_physical_address read_edid_block
ddc_get_physical_address-IsRounded reset ret bytes l =
    choice-Rounded (not (reset == 1)) (Search.address 0) (get_physical_address (ret, bytes))
      no_address (read_edid_block-Rounded (not (ret == 256)) bytes l)
