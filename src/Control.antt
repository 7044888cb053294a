-- ===== src/Control.antt =====
-- The power operations of the firmware (src/cec-control.c, include/cec-control.h): the results,
-- the bus that they run over, and the helpers. The operations are in the child modules.
pub mod Power
pub mod Operations
pub mod Names
pub mod Trace
use cec_controller.Common.{
  ℕ, ◌+◌, ◌-◌, Bool, true, false, Option, none, some, leb, ltb, ◌==◌, ◌&&◌, if◌then◌else◌, u32,
  sub64, min,
}
use cec_controller.Message.{Message, TxResult}

abbrev pub tx_timeout_ms : ℕ
tx_timeout_ms = 1500

abbrev pub power_timeout_ms : ℕ
power_timeout_ms = 2000

abbrev pub on_timeout_ms : ℕ
on_timeout_ms = 30000

abbrev pub standby_timeout_ms : ℕ
standby_timeout_ms = 10000

abbrev pub status_timeout_ms : ℕ
status_timeout_ms = 3000

abbrev pub poll_ms : ℕ
poll_ms = 500

abbrev pub retry_delay_ms : ℕ
retry_delay_ms = 2000

abbrev pub on_attempts : ℕ
on_attempts = 3

abbrev pub standby_attempts : ℕ
standby_attempts = 2

-- cec_power_query_result_t.
pub data PowerQuery : Type 0 where
  ok no_ack tx_timeout response_timeout unavailable unsupported : PowerQuery

-- cec_control_result_code_t.
pub data Code : Type 0 where
  ok invalid_physical_address no_ack tx_timeout response_timeout unavailable transition_timeout
        unsupported input_unconfirmed :
      Code

-- The strings that `phase` points to.
pub data Phase : Type 0 where
  ready power activate status : Phase

-- cec_control_result_t.
pub record ControlResult : Type 0 where
  pub code : Code
  pub tx_result : TxResult
  pub attempts : ℕ  -- uint8_t
  pub power_status : ℕ  -- uint8_t
  pub power_confirmed : Bool
  pub source_announced : Bool
  pub routing_confirmed : Bool
  pub elapsed_ms : ℕ  -- uint32_t
  pub phase : Phase

-- cec_control_bus_t with its required callbacks in place. `S` is what `context` points to. A query
-- takes the value that its status argument points to before the call, and gives the value after it. The
-- clock runs on: a reading of it changes the state.
pub record Bus (S : Type 0) : Type 0 where
  pub send : S → Message → ℕ → TxResult × S
  pub delay : S → ℕ → S
  pub query_power : S → ℕ → ℕ → ℕ → PowerQuery × ℕ × S
  pub now_ms : S → ℕ × S
  pub routing_confirmed : Option (S → ℕ → Bool)
  pub deadline_ms : ℕ

-- cec_control_bus_t: each function pointer may be null.
pub record ControlBus (S : Type 0) : Type 0 where
  pub send : Option (S → Message → ℕ → TxResult × S)
  pub delay : Option (S → ℕ → S)
  pub query_power : Option (S → ℕ → ℕ → ℕ → PowerQuery × ℕ × S)
  pub now_ms : Option (S → ℕ × S)
  pub routing_confirmed : Option (S → ℕ → Bool)
  pub deadline_ms : ℕ

unfoldable pub initial_result : ControlResult
initial_result = record {
  code = Code.unavailable;
  tx_result = TxResult.unavailable;
  attempts = 0;
  power_status = 255;
  power_confirmed = false;
  source_announced = false;
  routing_confirmed = false;
  elapsed_ms = 0;
  phase = Phase.ready;
}

infixl 5 ◌>>=◌
abbrev ◌>>=◌ : {A B : Type 0} → Option A → (A → Option B) → Option B
none >>= f = none
some a >>= f = f a

abbrev guard : {A : Type 0} → Bool → Option A → Option A
guard true o = o
guard false o = none

-- `available`: the bus with the callbacks that it was found to have, or `none`.
unfoldable pub available : {S : Type 0} → Option (ControlBus S) → ℕ → Option (Bus S)
available bus address = do
  b ← bus
  send ← b.send
  delay ← b.delay
  query ← b.query_power
  now ← b.now_ms
  guard (ltb 0 address && ltb address 15) (
      some (record {
        send = send;
        delay = delay;
        query_power = query;
        now_ms = now;
        routing_confirmed = b.routing_confirmed;
        deadline_ms = b.deadline_ms;
      }))

unfoldable pub query_error : PowerQuery → Code
query_error PowerQuery.ok = Code.ok
query_error PowerQuery.no_ack = Code.no_ack
query_error PowerQuery.tx_timeout = Code.tx_timeout
query_error PowerQuery.response_timeout = Code.response_timeout
query_error PowerQuery.unsupported = Code.unsupported
query_error PowerQuery.unavailable = Code.unavailable

module _ {S : Type 0} (bus : Bus S) where
  abbrev time_left : ℕ → ℕ → ℕ → ℕ
  time_left now deadline maximum =
      if leb deadline now
      then 0
      else if ltb (deadline - now) maximum
      then u32 (deadline - now)
      else maximum

  unfoldable pub remaining : S → ℕ → ℕ → ℕ × S
  remaining s deadline maximum =
      let read = bus.now_ms s in (time_left read.0 deadline maximum, read.1)

  unfoldable pub operation_deadline : S → ℕ → ℕ × S
  operation_deadline s timeout =
      let read = bus.now_ms s in
      let deadline = read.0 + timeout in
      (
        if ltb 0 bus.deadline_ms && ltb bus.deadline_ms deadline then bus.deadline_ms else deadline,
        read.1,
      )

  unfoldable pub pause_operation : S → ℕ → ℕ → S
  unfolding remaining
  pause_operation s deadline duration =
      let left = remaining s deadline duration in
      if left.0 == 0 then left.1 else bus.delay left.1 left.0

  unfoldable pub finish : S → ℕ → ControlResult → ControlResult × S
  finish s started result =
      let read = bus.now_ms s in (record result { elapsed_ms = u32 (sub64 read.0 started) }, read.1)
