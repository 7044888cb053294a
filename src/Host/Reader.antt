-- ===== src/Host/Reader.antt =====
-- The bytes from the serial port as the host takes them up (host/src/main.c, the loop over the bytes
-- in read_reply). The waits for the port and the limit of time are not modelled.
pub mod Laws
use cec_controller.Common.{
  ℕ, ◌+◌, Bool, true, false, not, ◌||◌, [], ◌∷◌, ◌++◌, Option, none, some, ltb, ◌==◌, if◌then◌else◌,
  length, Text, same_text,
}
use cec_controller.Host.Reply.{Reply}
use cec_controller.Host.Protocol.{Parsed, malformed, other_version, parsed, cecctl_parse_reply}

-- What the caller waits for: the command, an id other than 0, and a session.
pub record Wanted : Type 0 where
  pub command : Text
  pub id : ℕ
  pub session : Option Text

-- `line` with `used` characters, and `oversized`.
pub record Reader : Type 0 where
  pub line : Text
  pub oversized : Bool

abbrev pub new_line : Reader
new_line = record { line = []; oversized = false }

-- The loop goes on, or the function returns: EPROTONOSUPPORT, ECONNRESET, or the reply.
pub data Read : Type 0 where
  more : Reader → Read
  not_supported reset : Read
  answer : Reply → Read

abbrev pub same_session : Option Text → Reply → Bool
same_session none r = true
same_session (some session) r = same_text r.session session

abbrev pub answered : Wanted → Parsed → Read
answered w malformed = Read.more new_line
answered w other_version = Read.not_supported
answered w (parsed r) =
    if not (w.id == 0 || r.id == w.id)
    then Read.more new_line
    else if same_session w.session r
    then Read.answer r
    else Read.reset

unfoldable pub take_byte : Wanted → ℕ → Reader → Read
unfolding cecctl_parse_reply
take_byte w c s =
    let result = answered w (cecctl_parse_reply s.line w.command) in
    if c == 10
    then (if s.oversized then Read.more new_line else result)
    else if c == 0
    then Read.more (record s { oversized = true })
    else if c == 13 || s.oversized
    then Read.more s
    else if ltb (length s.line + 1) 512
    then Read.more (record s { line = s.line ++ (c ∷ []) })
    else Read.more (record s { oversized = true })

unfoldable pub take_bytes : Wanted → Text → Reader → Read
unfolding take_byte
take_bytes w [] s = Read.more s
take_bytes w (c ∷ bytes) s = elim (take_byte w c s) [
  | more next ↦ take_bytes w bytes next
  | not_supported ↦ Read.not_supported
  | reset ↦ Read.reset
  | answer r ↦ Read.answer r
]
