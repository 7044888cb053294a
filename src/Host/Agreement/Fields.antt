-- ===== src/Host/Agreement/Fields.antt =====
-- Each kind of field, as it is printed and stored.
use cec_controller.Common.{
  ℕ, ◌≤◌, ◌<◌, ◌≡◌, ◌≢◌, refl, ap, ◌∙◌, Bool, true, false, some, if◌then◌else◌, length, Text, codes,
  hex_text, decimal_text, power, AllChars, decimal_number, arith,
}
use cec_controller.Host.Reply.{Reply}
use cec_controller.Host.Protocol.{
  store_session, map_text, map_number, greatest32, sixteen_digits, copy, number,
}
use cec_controller.Host.Protocol.Tokens.{plain, GoodField}
use cec_controller.Host.Protocol.Fields.{
  copy-fits, number-decimal_text, number-hex_text, decimal_text-some,
}
use cec_controller.Host.Agreement.Names.{
  IsWord, hex_text-IsWord, decimal_text-plain, is_key, is_key-chars, is_key-some,
}

-- A field whose name is one of the program's words.
good_field :
    (name value : Text)
    → is_key name ≡ true
    → AllChars plain value
    → length value ≢ 0
    → GoodField (name, value)
good_field name value k chars some_char = record {
  key_plain = (is_key-chars name k).0;
  key_chars = (is_key-chars name k).1;
  key_some = is_key-some name k;
  value_plain = chars;
  value_some = some_char;
}

pub named :
    {size : ℕ} (name value : Text)
    → is_key name ≡ true
    → IsWord size value
    → GoodField (name, value)
named name value k n = good_field name value k n.chars n.some_char

pub printed : (name : Text) (n : ℕ) → is_key name ≡ true → GoodField (name, decimal_text n)
printed name n k = good_field name (decimal_text n) k (decimal_text-plain n) (decimal_text-some n)

pub flag_text-IsWord : (b : Bool) → IsWord 2 (if b then codes "1" else codes "0")
flag_text-IsWord true = record {
  chars = (refl, tt);
  some_char = λ e. omega (arith, e);
  fits = omega arith;
}
flag_text-IsWord false = record {
  chars = (refl, tt);
  some_char = λ e. omega (arith, e);
  fits = omega arith;
}

pub store_copy :
    (size : ℕ) (f : Text → Reply) (text : Text)
    → IsWord size text
    → map_text (copy size text) f ≡ some (f text)
store_copy size f text n = ap (λ c. map_text c f) (copy-fits size text n.some_char n.fits)

pub store_number :
    (f : ℕ → Reply) (n : ℕ)
    → n ≤ greatest32
    → map_number (number false greatest32 (decimal_text n)) f ≡ some (f n)
store_number f n h = ap (λ c. map_number c f) (number-decimal_text n h)

flag_number :
    (b : Bool)
    → number false greatest32 (if b then codes "1" else codes "0") ≡ some (if b then 1 else 0)
unfolding number decimal_number
flag_number true = refl
flag_number false = refl

pub store_flag :
    (f : ℕ → Reply) (b : Bool)
    → map_number (number false greatest32 (if b then codes "1" else codes "0")) f
      ≡ some (f (if b then 1 else 0))
store_flag f b = ap (λ c. map_number c f) (flag_number b)

pub store_digits :
    (f : ℕ → Reply) (n : ℕ)
    → n ≢ 0
    → n < power 16 16
    → map_number (sixteen_digits (hex_text 16 n)) f ≡ some (f n)
store_digits f n nz h = ap (λ c. map_number c f) (number-hex_text n nz h)

pub store_session_lem :
    (n : ℕ) (r : Reply)
    → n ≢ 0
    → n < power 16 16
    → store_session (sixteen_digits (hex_text 16 n)) (hex_text 16 n) r
      ≡ some (record r { session = hex_text 16 n })
store_session_lem n r nz h =
    ap (λ c. store_session c (hex_text 16 n) r) (number-hex_text n nz h)
    ∙ store_copy 17 (λ text. record r { session = text }) (hex_text 16 n) (hex_text-IsWord n)
