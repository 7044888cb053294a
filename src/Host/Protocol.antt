-- ===== src/Host/Protocol.antt =====
-- The replies of the firmware as the host reads them (host/src/protocol.c).
use cec_controller.Host.Checks.{saw, is, reply_good}
pub mod Tokens
pub mod Fields
use cec_controller.Common.{
  ℕ, zero, suc, ◌+◌, Bool, true, false, not, ◌&&◌, ◌||◌, List, [], ◌∷◌, ◌++◌, Option, none, some,
  leb, ltb, ◌==◌, if◌then◌else◌, length, Text, codes, same_text, strip_prefix, hex_number,
  decimal_number,
}
use cec_controller.Host.Reply.{Reply, empty_reply, Key, key_of, key_index, known}

-- `number`, for base 16 or 10; a number of more than 64 bits is over every maximum.
abbrev pub within : ℕ → Option ℕ → Option ℕ
within maximum none = none
within maximum (some n) = if leb n maximum then some n else none

unfoldable pub number : Bool → ℕ → Text → Option ℕ
unfolding hex_number decimal_number
number hex maximum text =
    if length text == 0
    then none
    else within maximum (if hex then hex_number 0 text else decimal_number 0 text)

-- `copy`, into an array of `size` characters.
unfoldable pub copy : ℕ → Text → Option Text
copy size text = if length text == 0 || leb size (length text) then none else some text

-- The characters that strtok_r takes as delimiters.
abbrev pub is_delimiter : ℕ → Bool
is_delimiter c = c == 32 || (c == 9 || (c == 13 || c == 10))

-- The tokens of a text behind the characters of a token that has begun, the latest first.
abbrev pub reversed_onto : Text → Text → Text
reversed_onto [] text = text
reversed_onto (c ∷ begun) text = reversed_onto begun (c ∷ text)

abbrev pub end_token : Text → List Text → List Text
end_token [] rest = rest
end_token (c ∷ begun) rest = reversed_onto (c ∷ begun) [] ∷ rest

unfoldable pub tokens : Text → Text → List Text
tokens begun [] = end_token begun []
tokens begun (c ∷ text) =
    let ended = end_token begun (tokens [] text) in
    let longer = tokens (c ∷ begun) text in if is_delimiter c then ended else longer

-- strchr for '=': what stands before the first one and behind it.
unfoldable pub split_field : Text → Option (Text × Text)
split_field [] = none
split_field (c ∷ text) =
    let rest = split_field text in
    if c == 61
    then some ([], text)
    else elim rest [ none ↦ none | some (key, value) ↦ some (c ∷ key, value) ]

-- A field with its key: its value, when both have a character.
unfoldable pub field_parts : Text → Option (Text × Text)
unfolding split_field
field_parts field = elim (split_field field) [
  | none ↦ none
  | some (key, value) ↦ if length key == 0 || length value == 0 then none else some (key, value)
]

-- The `switch` over the keys that the program knows.
abbrev pub greatest64 : ℕ
greatest64 = 18446744073709551615

abbrev pub greatest32 : ℕ
greatest32 = 4294967295

abbrev pub map_text : Option Text → (Text → Reply) → Option Reply
map_text none f = none
map_text (some text) f = some (f text)

abbrev pub map_number : Option ℕ → (ℕ → Reply) → Option Reply
map_number none f = none
map_number (some n) f = some (f n)

abbrev pub nonzero : Option ℕ → Option ℕ
nonzero none = none
nonzero (some n) = if n == 0 then none else some n

abbrev pub sixteen_digits : Text → Option ℕ
sixteen_digits value = if length value == 16 then nonzero (number true greatest64 value) else none

abbrev pub store_session : Option ℕ → Text → Reply → Option Reply
store_session none value r = none
store_session (some n) value r = map_text (copy 17 value) (λ text. record r { session = text })

unfoldable pub store_field : Key → Text → Reply → Option Reply
unfolding number copy
store_field Key.command value r = map_text (copy 64 value) (λ text. record r { command = text })
store_field Key.session value r = store_session (sixteen_digits value) value r
store_field Key.id value r = map_number (sixteen_digits value) (λ n. record r { id = n })
store_field Key.code value r = map_text (copy 64 value) (λ text. record r { code = text })
store_field Key.power value r = map_text (copy 64 value) (λ text. record r { power = text })
store_field Key.source value r = map_text (copy 16 value) (λ text. record r { source = text })
store_field Key.routing value r = map_text (copy 16 value) (λ text. record r { routing = text })
store_field Key.phase value r = map_text (copy 24 value) (λ text. record r { phase = text })
store_field Key.firmware value r = map_text (copy 64 value) (λ text. record r { firmware = text })
store_field Key.value value r =
    map_number (number false greatest32 value) (λ n. record r { value = n })
store_field Key.verified value r =
    map_number (number false greatest32 value) (λ n. record r { verified = n })
store_field Key.attempts value r =
    map_number (number false greatest32 value) (λ n. record r { attempts = n })
store_field Key.elapsed_ms value r =
    map_number (number false greatest32 value) (λ n. record r { elapsed_ms = n })
store_field Key.on_ms value r =
    map_number (number false greatest32 value) (λ n. record r { on_ms = n })
store_field Key.standby_ms value r =
    map_number (number false greatest32 value) (λ n. record r { standby_ms = n })
store_field Key.status_ms value r =
    map_number (number false greatest32 value) (λ n. record r { status_ms = n })
store_field Key.gpio value r =
    map_number (number false greatest32 value) (λ n. record r { gpio = n })
store_field Key.ready value r =
    map_number (number false greatest32 value) (λ n. record r { ready = n })
store_field Key.busy value r =
    map_number (number false greatest32 value) (λ n. record r { busy = n })

-- One field, with the keys that have been seen.
abbrev with_key : Key → Option Reply → List Key → Option (Reply × List Key)
with_key key none seen = none
with_key key (some r) seen = some (r, key ∷ seen)

unfoldable pub take_key : Option Key → Text → Reply × List Key → Option (Reply × List Key)
unfolding store_field
take_key none value (r, seen) = some (r, seen)
take_key (some key) value (r, seen) =
    if saw key seen then none else with_key key (store_field key value r) seen

-- The loop over the fields.
unfoldable pub take_pairs :
    List (Option (Text × Text)) → Reply × List Key → Option (Reply × List Key)
unfolding take_key key_of
take_pairs [] state = some state
take_pairs (none ∷ fields) state = none
take_pairs (some (key, value) ∷ fields) state = elim (take_key (key_of key) value state) [
  | none ↦ none
  | some next ↦ take_pairs fields next
]

abbrev pub parts_of : List Text → List (Option (Text × Text))
parts_of [] = []
parts_of (field ∷ fields) = field_parts field ∷ parts_of fields

-- The results -1 and -2, and 0 or 1 by the reply's `ok`.
pub data Parsed : Type 0 where
  malformed other_version : Parsed
  parsed : Reply → Parsed

abbrev pub checked : Text → Option (Reply × List Key) → Parsed
checked command none = Parsed.malformed
checked command (some (r, seen)) =
    if reply_good command (r, seen) then Parsed.parsed r else Parsed.malformed

unfoldable pub parse_fields : Text → Bool → Text → Parsed
unfolding copy tokens take_pairs field_parts reply_good
parse_fields command ok line = elim (copy 512 line) [
  | none ↦ Parsed.malformed
  | some fields ↦
      checked command
        (take_pairs (parts_of (tokens [] fields)) (record empty_reply { ok = ok }, []))
]

-- `OK ` or `ERR ` in front of the fields.
unfoldable pub parse_status : Text → Text → Parsed
unfolding parse_fields strip_prefix
parse_status command line = elim (strip_prefix (codes "OK ") line) [
  | some fields ↦ parse_fields command true fields
  | none ↦ elim (strip_prefix (codes "ERR ") line) [
    | some fields ↦ parse_fields command false fields
    | none ↦ Parsed.malformed
  ]
]

-- The blanks and prompts in front of a line.
unfoldable pub skip_prompt : Text → Text
skip_prompt [] = []
skip_prompt (c ∷ text) = if c == 32 || (c == 9 || c == 62) then skip_prompt text else c ∷ text

unfoldable pub parse_version : Text → Text → Parsed
unfolding parse_status
parse_version command line = elim (strip_prefix (codes "CECCTRL/") line) [
  | none ↦ Parsed.malformed
  | some rest ↦ elim (strip_prefix (codes "2 ") rest) [
    | none ↦ Parsed.other_version
    | some status ↦ parse_status command status
  ]
]

-- The null pointers, that the function refuses, have no counterpart.
unfoldable pub cecctl_parse_reply : Text → Text → Parsed
unfolding parse_version skip_prompt
cecctl_parse_reply line command =
    if leb 512 (length line) then Parsed.malformed else parse_version command (skip_prompt line)
