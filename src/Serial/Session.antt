-- ===== src/Serial/Session.antt =====
-- A session: the commands `tv` that arrive while the worker takes requests and ends them.
pub mod Slots
pub mod Invariant
pub mod Once
pub mod Kept
use cec_controller.Common.{ℕ, ◌≡◌, Bool, true, false, List, [], ◌∷◌, Option, none, some, Text}
use cec_controller.Config.{Config}
use cec_controller.Control.{ControlResult}
use cec_controller.Serial.{Operation, Retained, Serial, start}
use cec_controller.Serial.Command.{Device, exec_tv}
use cec_controller.Serial.Reply.{remember_address, entry_of, finish_operation}

-- A command; the worker takes the request from the queue, and runs it or not; it ends with a result.
pub data Event : Type 0 where
  command : Device → List Text → Event
  take : Bool → Event
  finish : ControlResult → Event

-- The variables, the request that the worker holds, and the requests that it has ended with
-- their texts, the latest first.
pub record Session : Type 0 where
  pub serial : Serial
  pub running : Option Operation
  pub ended : List Retained

-- The session when the firmware starts.
abbrev pub fresh : ℕ → Config → Session
fresh random loaded = record { serial = start random loaded; running = none; ended = [] }

unfoldable pub take_from : Bool → Option Operation → Option Operation → Session → Session
take_from run none (some r) s = record s {
  serial = record (remember_address run r s.serial) { pending = none };
  running = some r;
}
take_from run _ _ s = s

unfoldable pub finish_with : ControlResult → Option Operation → Session → Session
unfolding finish_operation entry_of
finish_with result none s = s
finish_with result (some r) s = record {
  serial = finish_operation r result s.serial;
  running = none;
  ended = entry_of s.serial.session_id r result ∷ s.ended;
}

unfoldable pub session_step : Event → Session → Session
unfolding exec_tv take_from finish_with
session_step (command d argv) s = record s { serial = (exec_tv d argv s.serial).1 }
session_step (take run) s = take_from run s.running s.serial.pending s
session_step (finish result) s = finish_with result s.running s

-- The events, the oldest first.
unfoldable pub session_run : List Event → Session → Session
unfolding session_step
session_run [] s = s
session_run (e ∷ es) s = session_run es (session_step e s)
