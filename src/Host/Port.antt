-- ===== src/Host/Port.antt =====
-- The exchange of a command for its reply over the serial port (host/src/main.c, write_command,
-- read_reply, transact). The calls of the operating system are a sequence of turns; where it ends,
-- the limit of time has passed.
pub mod Laws
use cec_controller.Common.{
  ℕ, Bool, true, false, not, ◌&&◌, ◌||◌, List, [], ◌∷◌, ◌++◌, Option, none, some, ltb, ◌==◌,
  if◌then◌else◌, length, take, drop, Text,
}
use cec_controller.Host.Reply.{Reply}
use cec_controller.Host.Reader.{
  Wanted, Reader, Read, more, not_supported, reset, answer, new_line, take_bytes,
}

-- errno behind a result of -1.
pub data Fault : Type 0 where
  timed_out no_device unsupported connection_reset : Fault
  other : ℕ → Fault

-- poll: ready, interrupted by a signal, or neither (an error, the end of the time, a hang-up).
pub data Poll : Type 0 where
  ready interrupted stopped : Poll

-- One turn of the loop of write_command: the clock at its test, and how many characters write takes,
-- or its error, or nothing and what poll gives then.
pub data Writes : Type 0 where
  wrote : ℕ → Writes
  refused : ℕ → Writes
  blocked : Poll → Writes

pub record WriteTurn : Type 0 where
  pub now : ℕ
  pub writes : Writes

-- The result, `none` for success, and what the port has taken.
pub record Written : Type 0 where
  pub fault : Option Fault
  pub sent : Text

abbrev pub finish_write : Text → Text → Written
finish_write [] sent = record { fault = none; sent = sent }
finish_write (_ ∷ _) sent = record { fault = some Fault.timed_out; sent = sent }

abbrev pub is_empty : Text → Bool
is_empty [] = true
is_empty (_ ∷ _) = false

-- What one turn does, where `next` is the rest of the loop. A poll that stops leaves an errno of its
-- own.
abbrev pub write_turn : (Text → Text → Written) → Text → Text → Writes → Written
write_turn next command sent (wrote n) = next (drop n command) (sent ++ take n command)
write_turn next command sent (refused e) = record { fault = some (Fault.other e); sent = sent }
write_turn next command sent (blocked stopped) = record {
  fault = some (Fault.other 0);
  sent = sent;
}
write_turn next command sent (blocked _) = next command sent

-- `command` is what is left of it.
unfoldable pub write_command : ℕ → List WriteTurn → Text → Text → Written
write_command deadline [] command sent = finish_write command sent
write_command deadline (turn ∷ turns) command sent =
    let after = write_turn (write_command deadline turns) command sent turn.writes in
    if not (is_empty command) && ltb turn.now deadline then after else finish_write command sent

-- One turn of the loop of read_reply: the clock at its test, and what poll and read give: an
-- interruption, no bytes in the time, a hang-up, no bytes yet, the end of the stream, or bytes.
pub data Input : Type 0 where
  signal silent gone again closed : Input
  bytes : Text → Input

pub record ReadTurn : Type 0 where
  pub now : ℕ
  pub input : Input

-- A reply, or -1 with errno. The result is 0 for a reply that is `ok`, and otherwise 1.
pub data Answer : Type 0 where
  replied : Reply → Answer
  fault : Fault → Answer

abbrev pub read_result : (Reader → Answer) → Read → Answer
read_result next (more s) = next s
read_result next not_supported = Answer.fault Fault.unsupported
read_result next reset = Answer.fault Fault.connection_reset
read_result next (answer r) = Answer.replied r

abbrev pub read_turn : (Reader → Answer) → Wanted → Reader → Input → Answer
read_turn next w s signal = next s
read_turn next w s silent = Answer.fault Fault.timed_out
read_turn next w s gone = Answer.fault Fault.no_device
read_turn next w s again = next s
read_turn next w s closed = Answer.fault Fault.no_device
read_turn next w s (bytes text) = read_result next (take_bytes w text s)

unfoldable pub read_reply : Wanted → ℕ → List ReadTurn → Reader → Answer
unfolding take_bytes
read_reply w deadline [] s = Answer.fault Fault.timed_out
read_reply w deadline (turn ∷ turns) s =
    let after = read_turn (read_reply w deadline turns) w s turn.input in
    if ltb turn.now deadline then after else Answer.fault Fault.timed_out

-- The turns of one call of transact.
pub record Exchange : Type 0 where
  pub writing : List WriteTurn
  pub reading : List ReadTurn

abbrev pub after_write : Wanted → ℕ → List ReadTurn → Written → Answer × Text
after_write w deadline turns written = elim written.fault [
  | some e ↦ (Answer.fault e, written.sent)
  | none ↦ (read_reply w deadline turns new_line, written.sent)
]

-- The answer, and what the port has taken.
unfoldable pub transact : Wanted → ℕ → Text → Exchange → Answer × Text
unfolding write_command read_reply
transact w deadline wire x =
    after_write w deadline x.reading (write_command deadline x.writing wire [])
