-- ===== src/Host/Cache/Scan.antt =====
-- The words of the file with the address, as sscanf and strtoull read them (host/src/main.c,
-- load_cached_address).
use cec_controller.Common.{
  ℕ, ◌-◌, ◌%◌, ◌^◌, Bool, true, false, ◌&&◌, ◌||◌, [], ◌∷◌, Option, none, some, zero, suc, ltb, leb,
  ◌==◌, if◌then◌else◌, Text, codes, strip_prefix, hex_number, ◌>>=◌, ◌>>◌, require,
}

-- isspace.
abbrev pub is_space : ℕ → Bool
is_space c = c == 32 || (leb 9 c && leb c 13)

-- What sscanf does for white space in the format, and for `%<k>s`: up to k characters that are no
-- white space, and at least one.
unfoldable pub skip_space : Text → Text
skip_space [] = []
skip_space (c ∷ text) = let rest = skip_space text in if is_space c then rest else c ∷ text

unfoldable pub word_from : ℕ → Text → Text × Text
word_from zero text = ([], text)
word_from (suc k) [] = ([], [])
word_from (suc k) (c ∷ text) =
    let rest = word_from k text in if is_space c then ([], c ∷ text) else (c ∷ rest.0, rest.1)

abbrev some_word : Text × Text → Option (Text × Text)
some_word ([], rest) = none
some_word (c ∷ word, rest) = some (c ∷ word, rest)

unfoldable pub scan_word : ℕ → Text → Option (Text × Text)
unfolding word_from skip_space
scan_word k text = some_word (word_from k (skip_space text))

abbrev at_end : Text → Bool
at_end [] = true
at_end (_ ∷ _) = false

-- The three words of the file.
pub record Cached : Type 0 where
  pub physical : Text
  pub connector : Text
  pub identity : Text

unfoldable pub scan_cache : Text → Option Cached
unfolding scan_word skip_space strip_prefix
scan_cache text = do
  a ← strip_prefix (codes "CECCTL_CACHE/2") text
  b ← strip_prefix (codes "address=") (skip_space a)
  physical ← scan_word 4 b
  c ← strip_prefix (codes "connector=") (skip_space physical.1)
  connector ← scan_word 127 c
  d ← strip_prefix (codes "display=") (skip_space connector.1)
  identity ← scan_word 16 d
  require (at_end (skip_space identity.1))
  some (record { physical = physical.0; connector = connector.0; identity = identity.0 })

-- strtoull in base 16, for a text that it takes whole: digits behind a sign and `0x`, both optional.
-- A number above 64 bits is an error (ERANGE).
abbrev strip_hex : Text → Text
strip_hex (a ∷ b ∷ text) = if a == 48 && (b == 120 || b == 88) then text else a ∷ b ∷ text
strip_hex text = text

unfoldable pub magnitude : Text → Option ℕ
unfolding hex_number
magnitude [] = none
magnitude (c ∷ text) = elim (hex_number 0 (c ∷ text)) [
  | none ↦ none
  | some value ↦ if ltb value (2 ^ 64) then some value else none
]

unfoldable pub strtoull : Text → Option ℕ
unfolding magnitude
strtoull [] = none
strtoull (c ∷ text) =
    let plain = magnitude (strip_hex (c ∷ text)) in
    let signed = magnitude (strip_hex text) in
    if c == 45
    then (elim signed [ none ↦ none | some value ↦ some ((2 ^ 64 - value) % 2 ^ 64) ])
    else if c == 43
    then signed
    else plain
