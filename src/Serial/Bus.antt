-- ===== src/Serial/Bus.antt =====
-- The bus that the worker gives to the power operations (src/usb-cdc.c, control_send to
-- control_route), its wait for an address, and the operation of a request.
use cec_controller.Common.{
  ℕ, suc, ◌+◌, ◌/◌, Bool, true, false, not, ◌&&◌, ◌||◌, Option, none, some, ltb, ◌==◌,
  if◌then◌else◌, Text, codes, same_text, Outcome, again, leave, loop,
}
use cec_controller.CecId.{CecId, opcode_of}
use cec_controller.Message.{Message, TxResult, opcode}
use cec_controller.Control.{
  PowerQuery, ControlResult, Bus, on_timeout_ms, standby_timeout_ms, status_timeout_ms,
}
use cec_controller.Control.Operations.{cec_control_on, cec_control_standby, cec_control_status}
use cec_controller.Control.Trace.{provided}
use cec_controller.Task.{
  Task, cec_ready, cec_set_source_active, cec_routing_confirmed, cec_set_physical_address,
}
use cec_controller.Serial.{Operation}

-- What the worker calls of the platform and of the CEC task: tud_cdc_connected, time_us_64 (the clock
-- runs on, so a reading changes the state),
-- vTaskDelay for some milliseconds, cec_send_msg_sync, cec_query_power_status (its result with the
-- status that it stores), and the variables of the task.
pub record Link (S : Type 0) : Type 0 where
  pub connected : S → Bool
  pub time_us : S → ℕ × S
  pub delay : S → ℕ → S
  pub send_msg_sync : S → Message → ℕ → TxResult × S
  pub query_power_status : S → ℕ → PowerQuery × Option ℕ × S
  pub task : S → Task
  pub with_task : S → Task → S

-- control_context_t, with what it stands in, and operation_phase.
pub record Context (S : Type 0) : Type 0 where
  pub link : S
  pub activation_started : Bool
  pub operation_at : ℕ
  pub phase : Text

abbrev status_or : Option ℕ → ℕ → ℕ
status_or none status = status
status_or (some s) status = s

module _ {S : Type 0} (l : Link S) where
  -- util_uptime_ms.
  abbrev pub uptime_ms : S → ℕ × S
  uptime_ms s = let read = l.time_us s in (read.0 / 1000, read.1)

  abbrev sent_on : Context S → Message → ℕ → TxResult × Context S
  sent_on c m timeout = let r = l.send_msg_sync c.link m timeout in (r.0, record c { link = r.1 })

  unfoldable pub control_send : Context S → Message → ℕ → TxResult × Context S
  control_send c m timeout =
      let active = opcode m == opcode_of CecId.active_source in
      let phased = record c {
        phase =
            if active || opcode m == opcode_of CecId.report_physical_address
            then codes "activate"
            else codes "power";
      } in
      let started = record phased {
        activation_started = true;
        link = l.with_task c.link (cec_set_source_active true (l.task c.link));
      } in
      if not (l.connected c.link)
      then (TxResult.unavailable, c)
      else if active
      then if not c.activation_started
        then sent_on started m timeout
        else if not (l.task c.link).source_active
        then (TxResult.unavailable, phased)
        else sent_on phased m timeout
      else sent_on phased m timeout

  unfoldable pub control_delay : Context S → ℕ → Context S
  control_delay c duration =
      if duration == 0 then c else record c { link = l.delay c.link duration }

  unfoldable pub control_query : Context S → ℕ → ℕ → ℕ → PowerQuery × ℕ × Context S
  control_query c initiator status timeout =
      let r = l.query_power_status c.link timeout in
      if not (l.connected c.link) || not (initiator == (l.task c.link).laddr)
      then (PowerQuery.unavailable, status, c)
      else (r.0, status_or r.1 status, record c { link = r.2 })

  unfoldable pub control_route : Context S → ℕ → Bool
  control_route c physical =
      (l.task c.link).source_active && cec_routing_confirmed physical c.operation_at (l.task c.link)

  unfoldable pub control_bus : ℕ → Bus (Context S)
  unfolding control_send control_delay control_query control_route
  control_bus deadline = record {
    send = control_send;
    delay = control_delay;
    query_power = control_query;
    now_ms = λ c. let read = uptime_ms c.link in (read.0, record c { link = read.1 });
    routing_confirmed = some control_route;
    deadline_ms = deadline;
  }

  -- `while (!cec_ready() && util_uptime_ms() + 50 < deadline && tud_cdc_connected())`
  unfoldable pub wait_turn : ℕ → S → Outcome S S
  wait_turn deadline s =
      let read = uptime_ms s in
      if cec_ready (l.task s)
      then leave s
      else if ltb (read.0 + 50) deadline && l.connected read.1
      then again (l.delay read.1 50)
      else leave read.1

  unfoldable pub wait_ready : ℕ → S → Option S
  unfolding wait_turn
  wait_ready deadline s = loop (suc deadline) (wait_turn deadline) s

  abbrev pub limit_of : Text → ℕ
  limit_of command =
      if same_text command (codes "on")
      then on_timeout_ms
      else if same_text command (codes "standby")
      then standby_timeout_ms
      else status_timeout_ms

  abbrev with_phase : Text → Context S → Context S
  with_phase phase c = record c { phase = phase }

  -- The power operation of a request, for a device type.
  unfoldable pub run_operation : Operation → ℕ → ℕ → Context S → Option (ControlResult × Context S)
  unfolding control_bus
  run_operation request type deadline c =
      let bus = some (provided (control_bus deadline)) in
      let t = l.task c.link in
      if same_text request.command (codes "on")
      then (let addressed = cec_set_physical_address request.physical t in
          cec_control_on bus addressed.laddr request.physical type
            (record c { link = l.with_task c.link addressed }))
      else if same_text request.command (codes "standby")
      then (let passive = cec_set_source_active false t in
          cec_control_standby bus passive.laddr (record c { link = l.with_task c.link passive }))
      else some (cec_control_status bus t.laddr (with_phase (codes "status") c))
