-- ===== src/Task/Client.antt =====
-- The calls that other tasks make (src/cec-task.c, cec_send_msg_sync and cec_query_power_status).
use cec_controller.Common.{
  ℕ, ◌+◌, ◌*◌, ◌-◌, ◌/◌, ◌%◌, Bool, not, ◌&&◌, ◌||◌, List, [], ◌∷◌, Option, none, some, leb, ltb,
  ◌==◌, if◌then◌else◌,
}
use cec_controller.CecId.{CecId}
use cec_controller.Message.{
  Message, TxResult, tx_code, is_ack, is_no_ack, is_unavailable, header0, message,
}
use cec_controller.Validate.{cec_message_valid}
use cec_controller.Control.{PowerQuery}
use cec_controller.Task.{Task, cec_ready}
use cec_controller.Task.Service.{Request}

-- The next request number: 24 bits, and never 0.
unfoldable pub next_generation : ℕ → ℕ
next_generation generation = let next = (generation + 1) % 16777216 in if next == 0 then 1 else next

-- What a round of the waiting loop meets: the clock, then the notification, `none` for a time-out.
abbrev pub Rounds : Type 0
Rounds = List (ℕ × Option ℕ)

-- The loop that waits for an answer. The inner option is `none` when the deadline passes, the
-- outer one when the rounds end before the loop does.
unfoldable pub wait_answer : ℕ → ℕ → Rounds → Option (Option ℕ)
wait_answer id deadline [] = none
wait_answer id deadline ((now, none) ∷ rounds) =
    let rest = wait_answer id deadline rounds in if leb deadline now then some none else rest
wait_answer id deadline ((now, some value) ∷ rounds) =
    let rest = wait_answer id deadline rounds in
    if leb deadline now
    then some none
    else if value / 256 == id
    then some (some (value % 256))
    else rest

-- The part of cec_send_msg_sync before the wait: `none` is CEC_TX_UNAVAILABLE. `free` tells
-- whether the queue has room.
unfoldable pub submit : Message → ℕ → ℕ → ℕ → Bool → Task → Option Request × Task
unfolding next_generation
submit m timeout_ms client now free p =
    let id = next_generation p.tx_generation in
    let request : Request = record {
      message = m;
      requester = client;
      id = id;
      deadline = now + timeout_ms * 1000;
    } in
    if not p.queue_created || timeout_ms == 0 || not (cec_message_valid m)
    then (none, p)
    else (if free then some request else none, record p { tx_generation = id })

-- The part after the wait: the value returned, CEC_TX_TIMEOUT when the request is cancelled.
unfoldable pub settle : Request → Option ℕ → Task → ℕ × Task
settle r (some result) p = (result, p)
settle r none p = (tx_code TxResult.timeout, record p { cancelled_tx = r.id })

-- The part of cec_query_power_status before the transmission: `none` is
-- CEC_POWER_QUERY_UNAVAILABLE, otherwise the query and the deadline. `now` and `since` are the two
-- readings of the clock.
unfoldable pub begin_query : ℕ → ℕ → ℕ → ℕ → Task → Option (Message × ℕ) × Task
begin_query client timeout_ms now since p =
    if timeout_ms == 0 || not (cec_ready p) then (none, p) else begin_wait p.waiter
  where
    begin_wait : Option ℕ → Option (Message × ℕ) × Task
    begin_wait (some other) = (none, p)
    begin_wait none = (
      some (
        message (header0 p.laddr 0) CecId.give_device_power_status [] 2,
        now + timeout_ms * 1000,
      ),
      record p {
        waiter = some client;
        power_query_since = since;
        power_query_deadline = now + timeout_ms * 1000;
      },
    )

-- `if (power_status_waiter == current) power_status_waiter = NULL;`
unfoldable pub release : ℕ → Option ℕ → Option ℕ
release client none = none
release client (some other) = if other == client then none else some other

-- The result of a query, from the result of the transmission and the value of the notification.
unfoldable pub query_outcome : TxResult → ℕ → PowerQuery × Option ℕ
query_outcome tx_result result =
    if leb 0x100 result
    then (PowerQuery.unsupported, none)
    else if leb 1 result && leb result 4
    then (PowerQuery.ok, some (result - 1))
    else if is_no_ack tx_result
    then (PowerQuery.no_ack, none)
    else if not (is_ack tx_result)
    then (if is_unavailable tx_result then PowerQuery.unavailable else PowerQuery.tx_timeout, none)
    else (PowerQuery.response_timeout, none)

-- The part after the transmission. `now` is the clock then, `value` the notification.
unfoldable pub end_query : ℕ → ℕ → TxResult → ℕ → Option ℕ → Task → (PowerQuery × Option ℕ) × Task
unfolding release query_outcome
end_query client deadline tx_result now none p =
    (query_outcome tx_result 0, record p { waiter = release client p.waiter })
end_query client deadline tx_result now (some value) p = (
  query_outcome tx_result (if is_ack tx_result && ltb now deadline then value else 0),
  record p { waiter = release client p.waiter },
)
