-- ===== src/Tests/Serial.antt =====
-- The serial protocol: a session with one operation, a setting, a message, and a reply on its way to
-- the host.
use cec_controller.Common.{
  ℕ, ◌+◌, ◌*◌, Returns, ◌≡◌, refl, true, false, List, [], ◌∷◌, none, inl, inr, arith, Text, codes,
  hex_text, same_text, some,
}
use cec_controller.Message.{Message, TxResult}
use cec_controller.Config.{cec_config_set_default}
use cec_controller.Control.{PowerQuery, Code, Phase, ControlResult}
use cec_controller.Serial.{Operation, Serial, parse_id, start, print}
use cec_controller.Task.{Task}
use cec_controller.Serial.Reply.{entry_of}
use cec_controller.Serial.Settings.{exec_set}
use cec_controller.Serial.Settings.Laws.{Stored, exec_set-IsStored}
use cec_controller.Serial.Send.{exec_send}
use cec_controller.Serial.Send.Laws.{Sent, exec_send-IsSent}
use cec_controller.Host.Reader.{Wanted, Read, new_line, take_bytes}
use cec_controller.Host.Agreement.{take_bytes-entry_of}
use cec_controller.Host.Agreement.Names.{Sound, reply_of}
use cec_controller.Serial.Bus.{Link, limit_of, wait_ready}
use cec_controller.Serial.Worker.{operation_worker}
use cec_controller.Serial.Worker.Ends.{PacedLink}
use cec_controller.Serial.Worker.Laws.{Served, operation_worker-Served}
use cec_controller.Serial.Command.{Device, exec_tv}
use cec_controller.Serial.Session.{Event, Session, fresh, session_run}
use cec_controller.Serial.Session.Slots.{New, ended_at}
use cec_controller.Serial.Session.Once.{exec_tv-once}
use cec_controller.Serial.Session.Kept.{exec_tv-result}

abbrev device : Device
device = record { version = codes "2.0"; pin = 3; ready = true; physical = 0x3000 }

abbrev confirmed : ControlResult
confirmed = record {
  code = Code.ok;
  tx_result = TxResult.ack;
  attempts = 1;
  power_status = 1;
  power_confirmed = true;
  source_announced = false;
  routing_confirmed = false;
  elapsed_ms = 1200;
  phase = Phase.power;
}

-- One operation from its command to its end.
abbrev first_operation : List Event
first_operation =
    Event.command device (codes "tv" ∷ codes "standby" ∷ codes "00000000000000aa" ∷ [])
    ∷ Event.take true
    ∷ Event.finish confirmed
    ∷ []

abbrev served : Session
served = session_run first_operation (fresh 5 cec_config_set_default)

abbrev next_request : Operation
next_request = record { id = 0xab; command = codes "standby"; physical = 0x3000 }

exec_tv-once_example : (served.running ≡ none) × New 0xab served.ended
unfolding session_run same_text parse_id start
exec_tv-once_example =
    exec_tv-once 5 cec_config_set_default first_operation device
      (codes "tv" ∷ codes "standby" ∷ codes "ab" ∷ []) next_request refl refl
      (λ e. omega (arith, e))

exec_tv-result_example :
    exec_tv device (codes "tv" ∷ codes "result" ∷ hex_text 16 0xaa ∷ []) served.serial
    ≡ (true, print (ended_at served.ended 0).text (record (served.serial) { manual_id = 7 }))
unfolding session_run same_text parse_id start
exec_tv-result_example =
    exec_tv-result 5 cec_config_set_default first_operation device 0 (omega arith)
      (λ e. omega (arith, e)) (omega arith)

abbrev empty_task : Task
empty_task = record {
  config = cec_config_set_default;
  laddr = 4;
  paddr = 0x3000;
  active_addr = 0;
  audio_status = false;
  queue_created = true;
  waiter = none;
  tx_generation = 0;
  cancelled_tx = 0;
  power_query_since = 0;
  power_query_deadline = 0;
  source_active = false;
  menu_state = false;
  next_allocate = 0;
  routing_address = 0;
  routing_at = 0;
  sent = [];
  notified = [];
  lamps = [];
}

abbrev set_address : List Text
set_address = codes "set" ∷ codes "config" ∷ codes "physical_address" ∷ codes "3100" ∷ []

exec_set-IsStored_example :
    Stored
      (start 5 cec_config_set_default)
      empty_task
      (exec_set set_address (start 5 cec_config_set_default) empty_task)
exec_set-IsStored_example =
    exec_set-IsStored set_address (start 5 cec_config_set_default) empty_task

-- A bus that acknowledges everything and counts.
abbrev counting : Message → ℕ → ℕ → TxResult × ℕ
counting m timeout s = (TxResult.ack, s + 1)

abbrev send_standby : List Text
send_standby = codes "send" ∷ codes "f" ∷ codes "36" ∷ []

exec_send-IsSent_example :
    let r = exec_send counting 4 send_standby (start 5 cec_config_set_default) 0 in
    Sent counting 4 0 (r.0, r.2)
exec_send-IsSent_example =
    exec_send-IsSent counting 4 send_standby (start 5 cec_config_set_default) 0

abbrev standby_request : Operation
standby_request = record { id = 0xaa; command = codes "standby"; physical = 0x3000 }

confirmed-Sound : Sound standby_request confirmed
confirmed-Sound = record {
  known = inr (inl refl);
  some_id = λ e. omega (arith, e);
  id_fits = omega arith;
  attempts = omega arith;
  elapsed = omega arith;
  status = inl (omega arith);
  success = λ e. (refl, omega arith);
  success_on = λ e on. cc on;
  success_standby = λ e standby. refl;
  input = λ e. cc e;
}

abbrev wanted : Wanted
wanted = record { command = codes "standby"; id = 0xaa; session = none }

take_bytes-entry_of_example :
    take_bytes wanted (entry_of 5 standby_request confirmed).text new_line
    ≡ Read.answer (reply_of 5 standby_request confirmed)
take_bytes-entry_of_example =
    take_bytes-entry_of 5 standby_request confirmed wanted confirmed-Sound (λ e. omega (arith, e))
      (omega arith) refl (inr refl) refl

-- A link whose state is the time in microseconds: the television reports standby.
abbrev link : Link ℕ
link = record {
  connected = λ s. true;
  time_us = λ s. (s, s + 3);
  delay = λ s d. s + d * 1000;
  send_msg_sync = λ s m t. (TxResult.ack, s + 1000);
  query_power_status = λ s t. (PowerQuery.ok, some 1, s + 1000);
  task = λ s. empty_task;
  with_task = λ s t. s;
}

link-Paced : PacedLink link (λ s. s)
link-Paced = record {
  reads = λ s. refl;
  reading = λ s. omega arith;
  send = λ s m t. omega arith;
  query = λ s t. omega arith;
  delay = λ s d. omega arith;
  write = λ s t. refl;
}

abbrev waiting : Serial
waiting = record (start 5 cec_config_set_default) {
  pending = some standby_request;
  operation_busy = true;
}

operation_worker-Served_example :
    let deadline = 7 + limit_of link standby_request.command in
    (s' : ℕ) × (wait_ready link deadline 7003 ≡ some s')
    × Returns
        (λ r. Served link standby_request 7000 deadline s' waiting r.0)
        (operation_worker link waiting 7000)
unfolding start
operation_worker-Served_example =
    operation_worker-Served link (λ s. s) waiting 7000 standby_request link-Paced refl (omega arith)
