-- ===== src/Control/Power.antt =====
-- confirm_power: sends a power request and queries the TV until two reports in a row show the
-- target, or the deadline passes.
pub mod Invariant
pub mod Termination
use cec_controller.Common.{
  ℕ, ◌+◌, ◌-◌, zero, suc, Bool, true, false, not, List, [], ◌∷◌, Option, none, some, leb, ltb, ◌==◌,
  ◌&&◌, ◌||◌, if◌then◌else◌, u8, u32, Outcome, again, leave, loop,
}
use cec_controller.CecId.{CecId, image_view_on, standby}
use cec_controller.Message.{Message, TxResult, is_unavailable, message, header0}
use cec_controller.Control.{
  Bus, ControlResult, Code, Phase, PowerQuery, initial_result, remaining, pause_operation,
  query_error, on_attempts, standby_attempts, tx_timeout_ms, power_timeout_ms, poll_ms,
  retry_delay_ms,
}

-- The local variables of the loop.
pub record Poll (S : Type 0) : Type 0 where
  pub result : ControlResult
  pub next_send : ℕ
  pub stable : ℕ
  pub any_report : Bool
  pub context : S

abbrev pub maximum_attempts : ℕ → ℕ
maximum_attempts target = if target == 0 then on_attempts else standby_attempts

abbrev pub command_id : ℕ → CecId
command_id target = if target == 0 then image_view_on else standby

abbrev pub command_message : ℕ → ℕ → Message
command_message address target = message (header0 address 0) (command_id target) [] 2

abbrev pub in_transition : ℕ → Bool
in_transition status = status == 2 || status == 3

abbrev pub is_ok : PowerQuery → Bool
is_ok PowerQuery.ok = true
is_ok _ = false

-- The answers that end the loop at once.
abbrev pub is_final : PowerQuery → Bool
is_final PowerQuery.unsupported = true
is_final PowerQuery.unavailable = true
is_final _ = false

abbrev timeout_code : Bool → Code → Code
timeout_code true _ = Code.transition_timeout
timeout_code false Code.no_ack = Code.no_ack
timeout_code false _ = Code.response_timeout

module _ {S : Type 0} (bus : Bus S) (address target deadline : ℕ) where
  -- What stands behind the loop.
  unfoldable pub timed_out : Poll S → ControlResult × S
  timed_out l = (record (l.result) { code = timeout_code l.any_report l.result.code }, l.context)

  -- The test of a request, at a reading of the clock.
  abbrev pub wants_send : ℕ → Poll S → Bool
  wants_send now l =
      leb l.next_send now
      && ltb l.result.attempts (maximum_attempts target)
      && not (in_transition l.result.power_status)
      && not (l.result.power_status == target)

  -- The power request: its result, the count and the time of the next one.
  unfoldable pub send_power : Poll S → Poll S
  send_power l =
      let timeout = remaining bus l.context deadline tx_timeout_ms in
      let sent = bus.send timeout.1 (command_message address target) timeout.0 in
      let read = bus.now_ms sent.1 in
      record l {
        result = record (l.result) { tx_result = sent.0; attempts = u8 (l.result.attempts + 1) };
        next_send = read.0 + retry_delay_ms;
        context = read.1;
      }

  -- The pause at the end of a turn.
  unfoldable pub next_turn : Poll S → Outcome (Poll S) (ControlResult × S)
  next_turn l = again (record l { context = pause_operation bus l.context deadline poll_ms })

  -- What is made of the answer to a query.
  unfoldable pub take_report : Poll S → PowerQuery × ℕ × S → Outcome (Poll S) (ControlResult × S)
  unfolding next_turn
  take_report l (query, status, s) =
      let result = record (l.result) { code = query_error query } in
      let stable = if status == target then u32 (l.stable + 1) else 0 in
      if is_final query
      then leave (result, s)
      else if is_ok query && leb status 3
      then if stable == 2
        then leave
            (record result { code = Code.ok; power_status = status; power_confirmed = true }, s)
        else next_turn (record l {
          result = record result { power_status = status };
          stable = stable;
          any_report = true;
          context = s;
        })
      else next_turn (record l { result = result; stable = 0; context = s })

  unfoldable pub query_turn : Poll S → Outcome (Poll S) (ControlResult × S)
  unfolding timed_out take_report
  query_turn l =
      let timeout = remaining bus l.context deadline power_timeout_ms in
      if timeout.0 == 0
      then leave (timed_out (record l { context = timeout.1 }))
      else take_report l (bus.query_power timeout.1 address 255 timeout.0)

  unfoldable pub send_turn : Poll S → Outcome (Poll S) (ControlResult × S)
  unfolding query_turn send_power
  send_turn l =
      let l' = send_power l in
      if is_unavailable l'.result.tx_result
      then leave (record (l'.result) { code = Code.unavailable }, l'.context)
      else query_turn l'

  -- The body of the loop, its condition first: the clock is read there and at the test of a request.
  unfoldable pub turn : Poll S → Outcome (Poll S) (ControlResult × S)
  unfolding send_turn
  turn l =
      let left = remaining bus l.context deadline 1 in
      let read = bus.now_ms left.1 in
      let l' = record l { context = read.1 } in
      if left.0 == 0
      then leave (timed_out (record l { context = left.1 }))
      else if wants_send read.0 l
      then send_turn l'
      else query_turn l'

  unfoldable pub first_poll : S → Poll S
  unfolding initial_result
  first_poll s = record {
    result = record initial_result { phase = Phase.power };
    next_send = 0;
    stable = 0;
    any_report = false;
    context = s;
  }

  -- Each turn pauses, so the milliseconds up to the deadline bound the turns.
  unfoldable pub confirm_power : S → Option (ControlResult × S)
  unfolding turn first_poll
  confirm_power s = loop (suc deadline) turn (first_poll s)
