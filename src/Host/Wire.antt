-- ===== src/Host/Wire.antt =====
-- The line of the host as the firmware takes it (host/src/main.c, main; src/usb-cdc.c, exec_tv). The
-- shell that cuts a line into words is no code of the repository: it is a parameter.
use cec_controller.Common.{
  ℕ, ◌+◌, ◌%◌, ◌^◌, ◌<◌, ◌≡◌, ◌≢◌, refl, ap, ◌∙◌, Bool, true, false, not, ◌&&◌, List, [], ◌∷◌, ◌++◌,
  none, some, ◌==◌, length, Text, codes, hex_text, hex_digit, hex_onto-AllChars, length-hex_onto,
  AllChars, All, arith, ◌≤◌, u16, same_text,
}
use cec_controller.Validate.{cec_physical_address_valid}
use cec_controller.Serial.{Operation, Serial}
use cec_controller.Serial.Scan.{scan_hex-hex_text}
use cec_controller.Serial.Command.{
  Device, find_retained, submit_request, queue_request, try_send, with_parsed, with_id,
  with_address, address_argument, checked_request, exec_tv,
}
use cec_controller.Serial.Session.Kept.{parse_id-hex_text}
use cec_controller.Host.Run.{Command, name_of, wire_of}

-- A character of a word.
abbrev pub letter : ℕ → Bool
letter c = not (c == 32) && not (c == 10)

-- A line of words, with a blank between them and a line feed at the end.
unfoldable pub line_of : Text → List Text → Text
line_of word [] = word ++ codes "\n"
line_of word (next ∷ words) = word ++ (32 ∷ line_of next words)

abbrev pub IsWord : Text → Type 0
IsWord word = AllChars letter word × (1 ≤ length word)

-- What the shell does with a line: it calls the command with the words.
abbrev pub Splits : (Text → List Text) → Type 0
Splits shell =
    (word : Text) (words : List Text)
    → IsWord word
    → All IsWord words
    → shell (line_of word words) ≡ word ∷ words

-- The words of the line for a command.
abbrev pub words_for : Command → ℕ → ℕ → List Text
words_for Command.on address id = codes "on" ∷ hex_text 4 address ∷ hex_text 16 id ∷ []
words_for c address id = name_of c ∷ hex_text 16 id ∷ []

wire_of-line_of :
    (c : Command) (address id : ℕ)
    → wire_of c address id ≡ line_of (codes "tv") (words_for c address id)
unfolding wire_of line_of
wire_of-line_of Command.on address id = refl
wire_of-line_of Command.standby address id = refl
wire_of-line_of Command.status address id = refl

letter-hex : (d : ℕ) → d < 16 → letter (hex_digit d) ≡ true
unfolding hex_digit
letter-hex d h = ground arith

hex_text-IsWord : (k n : ℕ) → 1 ≤ k → IsWord (hex_text k n)
hex_text-IsWord k n h =
    (hex_onto-AllChars letter k n [] letter-hex tt, omega (arith, length-hex_onto k n []))

words_for-IsWord : (c : Command) (address id : ℕ) → All IsWord (words_for c address id)
words_for-IsWord Command.on address id = (
  ((refl, (refl, tt)), omega arith),
  (hex_text-IsWord 4 address (omega arith), (hex_text-IsWord 16 id (omega arith), tt)),
)
words_for-IsWord Command.standby address id = (
  ((refl, (refl, (refl, (refl, (refl, (refl, (refl, tt))))))), omega arith),
  (hex_text-IsWord 16 id (omega arith), tt),
)
words_for-IsWord Command.status address id = (
  ((refl, (refl, (refl, (refl, (refl, (refl, tt)))))), omega arith),
  (hex_text-IsWord 16 id (omega arith), tt),
)

-- The request that the line is about. Only `on` has an address; the others have that of the device.
abbrev pub is_on : Command → Bool
is_on Command.on = true
is_on _ = false

abbrev pub request_of : Device → Command → ℕ → ℕ → Operation
request_of d Command.on address id = record { id = id; command = codes "on"; physical = address }
request_of d c address id = record { id = id; command = name_of c; physical = d.physical }

-- The variables with the next number, and with the request in the queue.
abbrev pub numbered : Serial → Serial
numbered p = record p { manual_id = (p.manual_id + 1) % 18446744073709551616 }

abbrev pub queued : Operation → Serial → Serial
queued request p = record (numbered p) {
  operation_busy = true;
  current_operation = request;
  pending = some request;
}

address_argument-hex_text :
    (address : ℕ)
    → address < 65536
    → cec_physical_address_valid address ≡ true
    → address_argument (hex_text 4 address) ≡ some address
unfolding address_argument
address_argument-hex_text address small valid =
    rw (address_argument, scan_hex-hex_text address small, size, same, valid) refl
  where
    size : length (hex_text 4 address) ≡ 4
    size = omega (arith, length-hex_onto 4 address [])

    same : u16 address ≡ address
    same = omega arith

submit_request-queued :
    (on : Bool) (request : Operation) (p : Serial)
    → (find_retained request.id p.retained).request.id ≡ 0
    → p.operation_busy ≡ false
    → p.pending ≡ none
    → (on ≡ true → cec_physical_address_valid request.physical ≡ true)
    → submit_request on false request p ≡ (
      true,
      record p { operation_busy = true; current_operation = request; pending = some request },
    )
unfolding submit_request queue_request try_send
submit_request-queued on request p fresh idle empty valid =
    rw (submit_request, fresh, queue_request, idle, good, empty) refl
  where
    good : (on && not (cec_physical_address_valid request.physical)) ≡ false
    good = ground (arith, valid)

exec_tv-words :
    (c : Command) (d : Device) (address id : ℕ) (p : Serial)
    → address < 65536
    → cec_physical_address_valid address ≡ true
    → id ≢ 0
    → id < 2 ^ 64
    → exec_tv d (codes "tv" ∷ words_for c address id) p
      ≡ submit_request (is_on c) false (request_of d c address id) (numbered p)
unfolding exec_tv checked_request with_id with_parsed with_address same_text
exec_tv-words Command.on d address id p small valid some_id fits =
    rw (address_argument-hex_text address small valid, parse_id-hex_text id some_id (omega arith))
      refl
exec_tv-words Command.standby d address id p small valid some_id fits =
    rw (parse_id-hex_text id some_id (omega arith)) refl
exec_tv-words Command.status d address id p small valid some_id fits =
    rw (parse_id-hex_text id some_id (omega arith)) refl

-- The address is looked at for `on` only.
on-valid :
    (c : Command) (d : Device) (address id : ℕ)
    → cec_physical_address_valid address ≡ true
    → is_on c ≡ true
    → cec_physical_address_valid ((request_of d c address id).physical) ≡ true
on-valid Command.on d address id valid h = valid
on-valid Command.standby d address id valid h = ground arith
on-valid Command.status d address id valid h = ground arith

request-id : (c : Command) (d : Device) (address id : ℕ) → (request_of d c address id).id ≡ id
request-id Command.on d address id = refl
request-id Command.standby d address id = refl
request-id Command.status d address id = refl

-- For a shell that cuts a line into its words: the line that the host sends for a command, with a
-- valid address of 16 bits and an id of 64 bits other than 0, puts exactly that request into the queue
-- of the firmware, when the firmware is idle and has no result under that id.
pub exec_tv-wire_of :
    (shell : Text → List Text) (c : Command) (d : Device) (address id : ℕ) (p : Serial)
    → Splits shell
    → address < 65536
    → cec_physical_address_valid address ≡ true
    → id ≢ 0
    → id < 2 ^ 64
    → (find_retained id p.retained).request.id ≡ 0
    → p.operation_busy ≡ false
    → p.pending ≡ none
    → exec_tv d (shell (wire_of c address id)) p ≡ (true, queued (request_of d c address id) p)
exec_tv-wire_of shell c d address id p splits small valid some_id fits fresh idle empty =
    ap (λ words. exec_tv d words p)
      (ap shell (wire_of-line_of c address id)
        ∙ splits (codes "tv") (words_for c address id) ((refl, (refl, tt)), omega arith)
            (words_for-IsWord c address id))
    ∙ exec_tv-words c d address id p small valid some_id fits
    ∙ submit_request-queued (is_on c) (request_of d c address id) (numbered p)
        (ap (λ n. (find_retained n p.retained).request.id) (request-id c d address id) ∙ fresh) idle
        empty (on-valid c d address id valid)
