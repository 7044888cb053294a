-- ===== src/Serial/Worker.antt =====
-- One round of the worker (src/usb-cdc.c, operation_worker).
pub mod Ends
pub mod Laws
use cec_controller.Common.{
  ℕ, ◌+◌, ◌/◌, Bool, false, ◌&&◌, Option, none, some, ltb, if◌then◌else◌, u32, sub64, codes,
}
use cec_controller.Control.{ControlResult, initial_result}
use cec_controller.Task.{cec_ready}
use cec_controller.Serial.{Operation, Serial}
use cec_controller.Serial.Bus.{Link, Context, uptime_ms, wait_ready, limit_of, run_operation}
use cec_controller.Serial.Reply.{remember_address, finish_operation}

module _ {S : Type 0} (l : Link S) where
  -- The state in which the operation starts.
  abbrev pub context_of : ℕ → S → Context S
  context_of started_us s = record {
    link = s;
    activation_started = false;
    operation_at = started_us;
    phase = codes "ready";
  }

  -- Whether the operation may run, and the state behind the test: the clock is read only with an
  -- address and a session.
  abbrev pub may_run : ℕ → S → Bool × S
  may_run deadline s =
      let read = uptime_ms l s in
      if cec_ready (l.task s) && l.connected s then (ltb read.0 deadline, read.1) else (false, s)

  -- The result with the time from the start of the request to the end.
  abbrev pub end_operation : Operation → ℕ → Bool → Serial → ControlResult × Context S → Serial × S
  end_operation request started_us run p (r, c) =
      let read = uptime_ms l c.link in
      (
        finish_operation request (record r { elapsed_ms = u32 (sub64 read.0 (started_us / 1000)) })
            (remember_address run request p),
        read.1,
      )

  -- The operation, once the wait has ended in the state `s`.
  unfoldable pub operate : Operation → ℕ → ℕ → Serial → S → Option (Serial × S)
  unfolding run_operation finish_operation
  operate request started_us deadline p s =
      let run = may_run deadline s in
      let c = context_of started_us run.1 in
      elim (if run.0
        then run_operation l request p.config.device_type deadline c
        else some (initial_result, c)) [
          | none ↦ none
          | some outcome ↦ some (end_operation request started_us run.0 p outcome)
        ]

  -- One round of the worker. `none` is an endless wait: an empty queue, or a loop that does not end.
  unfoldable pub operation_worker : Serial → S → Option (Serial × S)
  unfolding wait_ready operate
  operation_worker p s = elim p.pending [
    | none ↦ none
    | some request ↦
        let started = l.time_us s in
        let deadline = started.0 / 1000 + limit_of l request.command in
        elim (wait_ready l deadline started.1) [
          | none ↦ none
          | some s' ↦ operate request started.0 deadline (record p { pending = none }) s'
        ]
  ]
