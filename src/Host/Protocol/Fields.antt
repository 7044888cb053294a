-- ===== src/Host/Protocol/Fields.antt =====
-- The fields of a reply, one by one (host/src/protocol.c, the loop of cecctl_parse_reply).
use cec_controller.Common.{
  ℕ, suc, ◌+◌, ◌≤◌, ◌<◌, ◌≡◌, ◌≢◌, refl, ◌∙◌, false, List, [], ◌∷◌, Option, some, length, Text,
  hex_number, decimal_number, hex_text, decimal_text, decimal_onto, ◌/◌, ◌%◌, power,
  hex_number-hex_onto, decimal_number-decimal_onto, length-hex_onto, length-decimal_onto, arith,
}
use cec_controller.Host.Reply.{Reply, Key, key_of}
use cec_controller.Host.Protocol.Tokens.{found_of}
use cec_controller.Host.Protocol.{
  number, copy, sixteen_digits, greatest32, store_field, take_key, take_pairs,
}
use cec_controller.Host.Checks.{saw}

pub copy-fits :
    (size : ℕ) (text : Text) → length text ≢ 0 → length text < size → copy size text ≡ some text
unfolding copy
copy-fits size text a b = ground (arith, a, b)

decimal_onto-longer :
    (fuel n : ℕ) (rest : Text) → length rest < length (decimal_onto (suc fuel) n rest)
unfolding decimal_onto
decimal_onto-longer fuel n rest =
    ground (arith, length-decimal_onto fuel (n / 10) ((48 + n % 10) ∷ rest))

pub decimal_text-some : (n : ℕ) → length (decimal_text n) ≢ 0
decimal_text-some n e = omega (arith, decimal_onto-longer 9 n [], e)

pub number-decimal_text :
    (n : ℕ) → n ≤ greatest32 → number false greatest32 (decimal_text n) ≡ some n
unfolding number decimal_number
number-decimal_text n h =
    rw (decimal_number-decimal_onto 9 n [] (omega (arith, h)))
      (ground (arith, h, decimal_text-some n))

pub number-hex_text : (n : ℕ) → n ≢ 0 → n < power 16 16 → sixteen_digits (hex_text 16 n) ≡ some n
unfolding number hex_number
number-hex_text n nz h =
    rw (hex_number-hex_onto 16 0 n [] h) (rw (length-hex_onto 16 n []) (ground (arith, h)))

-- A field with a key that is known and new.
take_pairs-step :
    (name value : Text) (key : Key) (fields : List (Option (Text × Text))) (r r' : Reply)
    (seen : List Key)
    → key_of name ≡ some key
    → saw key seen ≡ false
    → store_field key value r ≡ some r'
    → take_pairs (some (name, value) ∷ fields) (r, seen) ≡ take_pairs fields (r', key ∷ seen)
unfolding take_pairs take_key
take_pairs-step name value key fields r r' seen a b c = rw (take_pairs, a, take_key, b, c) refl

-- The fields that the loop accepts, with what it makes of them.
pub data Reads : List (Text × Text) → Reply → List Key → Reply × List Key → Type 0 where
  done : {r : Reply} {seen : List Key} → Reads [] r seen (r, seen)
  field :
      {name value : Text} (key : Key) {fields : List (Text × Text)} {r r' : Reply} {seen : List Key}
      {s : Reply × List Key}
      → key_of name ≡ some key
      → saw key seen ≡ false
      → store_field key value r ≡ some r'
      → Reads fields r' (key ∷ seen) s
      → Reads ((name, value) ∷ fields) r seen s

pub Reads-take_pairs :
    {fields : List (Text × Text)} {r : Reply} {seen : List Key} {s : Reply × List Key}
    → Reads fields r seen s
    → take_pairs (found_of fields) (r, seen) ≡ some s
unfolding take_pairs
Reads-take_pairs done = refl
Reads-take_pairs (field {name} {value} key {fields} {r} {r'} {seen} {s} a b c rest) =
    take_pairs-step name value key (found_of fields) r r' seen a b c ∙ Reads-take_pairs rest
