-- ===== src/Control/Operations.antt =====
-- cec_control_on, cec_control_standby and cec_control_status. `none` only where confirm_power
-- runs out of fuel.
pub mod Outcome
use cec_controller.Common.{
  ℕ, ◌+◌, ◌-◌, ◌/◌, ◌%◌, zero, suc, Bool, true, false, not, List, [], ◌∷◌, Option, none, some, leb,
  ltb, ◌==◌, ◌&&◌, ◌||◌, if◌then◌else◌, u8,
}
use cec_controller.CecId.{CecId, report_physical_address, active_source}
use cec_controller.Message.{Message, TxResult, is_ack, message, header0}
use cec_controller.Validate.{cec_physical_address_valid}
use cec_controller.Control.{
  Bus, ControlBus, ControlResult, Code, Phase, PowerQuery, initial_result, available, remaining,
  operation_deadline, pause_operation, finish, query_error, on_timeout_ms, standby_timeout_ms,
  status_timeout_ms, tx_timeout_ms, power_timeout_ms, poll_ms,
}
use cec_controller.Control.Power.{confirm_power}

abbrev pub is_ok : Code → Bool
is_ok Code.ok = true
is_ok _ = false

-- A callback that may be null, called if it is not.
abbrev pub routed : {S : Type 0} → Option (S → ℕ → Bool) → S → ℕ → Bool
routed none s physical = false
routed (some route) s physical = route s physical

abbrev pub report_message : ℕ → ℕ → ℕ → Message
report_message address physical type =
    message (header0 address 15) report_physical_address
      (u8 (physical / 256) ∷ physical % 256 ∷ type ∷ []) 5

abbrev pub active_message : ℕ → ℕ → Message
active_message address physical =
    message (header0 address 15) active_source (u8 (physical / 256) ∷ physical % 256 ∷ []) 4

module _ {S : Type 0} (bus : Bus S) (address physical : ℕ) where
  -- The loop over the two announcements, on the rounds that are left.
  unfoldable pub announce : ℕ → ℕ → S → ControlResult → ControlResult × S
  announce deadline zero s result = (record result { code = Code.input_unconfirmed }, s)
  announce deadline (suc rounds) s result =
      let timeout = remaining bus s deadline tx_timeout_ms in
      let sent = bus.send timeout.1 (active_message address physical) timeout.0 in
      let paused = pause_operation bus sent.1 deadline poll_ms in
      let result' = record result { tx_result = sent.0 } in
      let announced = record result' { source_announced = true } in
      let rest = announce deadline rounds paused announced in
      if timeout.0 == 0
      then (record result { code = Code.input_unconfirmed }, timeout.1)
      else if not (is_ack sent.0)
      then (record result' { code = Code.input_unconfirmed }, sent.1)
      else if routed bus.routing_confirmed paused physical
      then (record announced { routing_confirmed = true; code = Code.ok }, paused)
      else rest

  -- What follows a confirmed wake.
  unfoldable pub activate : ℕ → ℕ → ControlResult × S → ControlResult × S
  unfolding announce
  activate type deadline (confirmed, s0) =
      let result = record confirmed { phase = Phase.activate } in
      let s = pause_operation bus s0 deadline poll_ms in
      let timeout = remaining bus s deadline tx_timeout_ms in
      let sent = bus.send timeout.1 (report_message address physical type) timeout.0 in
      if timeout.0 == 0
      then (record result { code = Code.input_unconfirmed }, timeout.1)
      else if not (is_ack sent.0)
      then (record result { code = Code.input_unconfirmed }, sent.1)
      else announce deadline 2 sent.1 result

abbrev pub finished : {S : Type 0} → Bus S → ℕ → ControlResult × S → ControlResult × S
finished bus started (result, s) = finish bus s started result

-- cec_control_on once the bus and the address have passed.
unfoldable pub wake : {S : Type 0} → Bus S → ℕ → ℕ → ℕ → S → Option (ControlResult × S)
unfolding activate
wake bus address physical type s =
    let started = bus.now_ms s in
    let deadline = operation_deadline bus started.1 on_timeout_ms in
    elim (confirm_power bus address 0 deadline.0 deadline.1) [
      | none ↦ none
      | some confirmed ↦ some (
          finished bus started.0 (
            if is_ok confirmed.0.code
            then activate bus address physical type deadline.0 confirmed
            else confirmed))
    ]

unfoldable pub cec_control_on :
    {S : Type 0} → Option (ControlBus S) → ℕ → ℕ → ℕ → S → Option (ControlResult × S)
unfolding initial_result wake
cec_control_on b address physical type s = elim (available b address) [
  | none ↦ some (initial_result, s)
  | some bus ↦
      if not (cec_physical_address_valid physical)
      then some (record initial_result { code = Code.invalid_physical_address }, s)
      else wake bus address physical type s
]

-- cec_control_standby once the bus has passed.
unfoldable pub rest : {S : Type 0} → Bus S → ℕ → S → Option (ControlResult × S)
rest bus address s =
    let started = bus.now_ms s in
    let deadline = operation_deadline bus started.1 standby_timeout_ms in
    elim (confirm_power bus address 1 deadline.0 deadline.1) [
      | none ↦ none
      | some confirmed ↦ some (finished bus started.0 confirmed)
    ]

unfoldable pub cec_control_standby :
    {S : Type 0} → Option (ControlBus S) → ℕ → S → Option (ControlResult × S)
unfolding initial_result rest
cec_control_standby b address s = elim (available b address) [
  | none ↦ some (initial_result, s)
  | some bus ↦ rest bus address s
]

-- The code and the confirmation of a single query.
abbrev status_result : PowerQuery × ℕ → ControlResult
status_result (query, status) =
    let code =
      if is_ok (query_error query) && ltb 3 status
      then Code.response_timeout
      else query_error query in
    record initial_result {
      phase = Phase.status;
      attempts = 1;
      power_status = status;
      code = code;
      power_confirmed = is_ok code;
    }

-- cec_control_status once the bus has passed.
unfoldable pub poll_status : {S : Type 0} → Bus S → ℕ → S → ControlResult × S
unfolding initial_result
poll_status bus address s =
    let started = bus.now_ms s in
    let deadline = operation_deadline bus started.1 status_timeout_ms in
    let timeout = remaining bus deadline.1 deadline.0 power_timeout_ms in
    let answer = bus.query_power timeout.1 address initial_result.power_status timeout.0 in
    finished bus started.0 (
      if timeout.0 == 0
      then (record initial_result { code = Code.response_timeout }, timeout.1)
      else (status_result (answer.0, answer.1), answer.2))

unfoldable pub cec_control_status : {S : Type 0} → Option (ControlBus S) → ℕ → S → ControlResult × S
unfolding initial_result poll_status
cec_control_status b address s = elim (available b address) [
  | none ↦ (initial_result, s)
  | some bus ↦ poll_status bus address s
]
