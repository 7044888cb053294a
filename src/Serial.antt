-- ===== src/Serial.antt =====
-- The serial protocol of the firmware (src/usb-cdc.c): its variables, what it prints, and how it
-- reads the numbers of a command line. The children model the commands and the worker.
pub mod Scan
pub mod Command
pub mod Bus
pub mod Reply
pub mod Worker
pub mod Settings
pub mod Send
pub mod Session
pub mod Show
use cec_controller.Common.{
  ℕ, zero, suc, ◌+◌, ◌-◌, ◌*◌, ◌/◌, ◌%◌, Bool, true, false, not, ◌&&◌, ◌||◌, List, [], ◌∷◌, ◌++◌,
  Option, none, some, leb, ltb, ◌==◌, if◌then◌else◌, u16, u32, min, length, get_or, Text, codes,
  hex_value, hex_number, hex_text, replicate,
}
use cec_controller.Config.{Config}

-- operation_t.
pub record Operation : Type 0 where
  pub id : ℕ
  pub command : Text
  pub physical : ℕ

abbrev pub no_operation : Operation
no_operation = record { id = 0; command = []; physical = 0 }

-- retained_t.
pub record Retained : Type 0 where
  pub request : Operation
  pub text : Text

abbrev pub not_retained : Retained
not_retained = record { request = no_operation; text = [] }

abbrev pub result_count : ℕ
result_count = 8

-- The static variables. `pending` is the operation queue, which has one place, and `printed` has the
-- texts handed to `print`, the latest first.
pub record Serial : Type 0 where
  pub config : Config
  pub session_id : ℕ
  pub manual_id : ℕ
  pub operation_busy : Bool
  pub operation_phase : Text
  pub current_operation : Operation
  pub pending : Option Operation
  pub retained : List Retained
  pub retained_next : ℕ
  pub debug_enabled : Bool
  pub printed : List Text

abbrev pub print : Text → Serial → Serial
print text p = record p { printed = text ∷ p.printed }

abbrev pub line_break : Text
line_break = 13 ∷ 10 ∷ []

-- A text that does not fit the buffer of 384 characters is not printed.
unfoldable pub cdc_printfln : Text → Serial → Serial
cdc_printfln text p = if leb 382 (length text) then p else print (text ++ line_break) p

-- cdc_task up to its loop: `random` is get_rand_64, `loaded` the stored configuration.
unfoldable pub start : ℕ → Config → Serial
start random loaded =
    let session = if random == 0 then 1 else random in
    record {
      config = loaded;
      session_id = session;
      manual_id = session;
      operation_busy = false;
      operation_phase = codes "idle";
      current_operation = no_operation;
      pending = none;
      retained = replicate result_count not_retained;
      retained_next = 0;
      debug_enabled = false;
      printed = [];
    }

abbrev pub error_text : Text → ℕ → ℕ → Text → Text
error_text command id session code =
    codes "CECCTRL/2 ERR command="
    ++ (command
        ++ (codes " id="
            ++ (hex_text 16 id
                ++ (codes " session=" ++ (hex_text 16 session ++ (codes " code=" ++ code))))))

unfoldable pub operation_error : Text → ℕ → Text → Serial → Serial
unfolding cdc_printfln
operation_error command id code p = cdc_printfln (error_text command id p.session_id code) p

unfoldable pub parse_id : Text → Option ℕ
unfolding hex_number
parse_id text =
    if length text == 0 || ltb 16 (length text) then none else nonzero (hex_number 0 text)
  where
    nonzero : Option ℕ → Option ℕ
    nonzero none = none
    nonzero (some id) = if id == 0 then none else some id

-- The conversion %x of sscanf: blanks, a sign, 0x, and then digits. The result is the value of 32
-- bits and the rest of the text; `none` is a text without a number.
abbrev is_blank : ℕ → Bool
is_blank c = c == 32 || (leb 9 c && leb c 13)

skip_blanks : Text → Text
skip_blanks [] = []
skip_blanks (c ∷ text) = if is_blank c then skip_blanks text else c ∷ text

-- The digits behind `value`.
scan_digits : ℕ → Text → ℕ × Text
scan_digits value [] = (value, [])
scan_digits value (c ∷ text) = elim (hex_value c) [
  | none ↦ (value, c ∷ text)
  | some digit ↦ scan_digits (value * 16 + digit) text
]

abbrev is_hex : ℕ → Bool
is_hex c = elim (hex_value c) [ none ↦ false | some digit ↦ true ]

skip_0x : Text → Text
skip_0x text =
    let second = get_or text 1 0 in
    if get_or text 0 0 == 48 && (second == 120 || second == 88) then drop_two text else text
  where
    drop_two : Text → Text
    drop_two (a ∷ b ∷ rest) = rest
    drop_two other = other

scan_unsigned : Text → Option (ℕ × Text)
unfolding scan_digits skip_0x
scan_unsigned text =
    let digits = skip_0x text in
    if is_hex (get_or digits 0 0) then some (scan_digits 0 digits) else none

-- A value that does not fit becomes the greatest one, and a minus sign negates modulo 2^32.
abbrev greatest : ℕ
greatest = 4294967295

scan_signed : Text → Option (ℕ × Text)
unfolding scan_unsigned
scan_signed [] = none
scan_signed (c ∷ text) =
    if c == 43
    then plus (scan_unsigned text)
    else if c == 45
    then minus (scan_unsigned text)
    else plus (scan_unsigned (c ∷ text))
  where
    plus : Option (ℕ × Text) → Option (ℕ × Text)
    plus none = none
    plus (some (n, rest)) = some (min n greatest, rest)

    minus : Option (ℕ × Text) → Option (ℕ × Text)
    minus none = none
    minus (some (n, rest)) = some (if ltb greatest n then greatest else u32 (4294967296 - n), rest)

unfoldable pub scan_hex : Text → Option (ℕ × Text)
unfolding skip_blanks scan_signed
scan_hex text = scan_signed (skip_blanks text)
