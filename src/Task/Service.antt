-- ===== src/Task/Service.antt =====
-- The turn of the CEC task: one received message, one request of a client, one try for an address
-- (src/cec-task.c, service_tx_request and the loop of cec_task).
pub mod Laws
use cec_controller.Common.{
  ℕ, zero, suc, ◌+◌, ◌*◌, ◌-◌, ◌/◌, ◌<◌, ◌≡◌, Bool, true, false, not, ◌&&◌, ◌||◌, List, [], ◌∷◌,
  Option, none, some, leb, ltb, ◌==◌, if◌then◌else◌, bit_or, u32,
}
use cec_controller.CecId.{CecId, opcode_of}
use cec_controller.Message.{Message, TxResult, tx_code, is_ack, opcode, initiator_of}
use cec_controller.Config.{Config}
use cec_controller.Task.{Task, cec_ready, notify_tx}
use cec_controller.Task.Allocate.{Polls, allocate_logical_address, get_physical_address}
use cec_controller.Task.Dispatch.{Arrival, dispatch_message}

-- cec_tx_request_t.
pub record Request : Type 0 where
  pub message : Message
  pub requester : ℕ
  pub id : ℕ
  pub deadline : ℕ

-- UINT64_MAX.
abbrev pub never : ℕ
never = 18446744073709551615

-- What cec_frame_send_timeout gives for a message and a time in milliseconds, with
-- cec_frame_sent_at after it.
abbrev pub Wire : Type 0
Wire = Message → ℕ → TxResult × ℕ

-- The request may go on the wire.
abbrev pub accepted : ℕ → Request → Task → Bool
accepted now r p =
    not (r.id == p.cancelled_tx)
    && ltb now r.deadline
    && initiator_of r.message == p.laddr
    && cec_ready p

abbrev pub is_query : Message → Bool
is_query m = opcode m == opcode_of CecId.give_device_power_status && ltb 1 m.len

-- The transmission of an accepted request.
unfoldable pub transmit : Wire → ℕ → Request → Task → TxResult × Task
transmit wire now r p =
    let outcome = wire r.message (u32 ((r.deadline - now) / 1000)) in
    let since =
      if is_query r.message
      then if is_ack outcome.0 then outcome.1 else never
      else p.power_query_since in
    (outcome.0, record p { power_query_since = since; sent = r.message ∷ p.sent })

-- The notification of the client.
abbrev pub answer : Request → TxResult → Task → Task
answer r result p = record p {
  notified = (r.requester, notify_tx, bit_or (u32 (r.id * 256)) (tx_code result)) ∷ p.notified;
}

-- `none` is an empty queue. The result tells whether there was a request.
unfoldable pub service_tx_request : Wire → ℕ → Option Request → Task → Bool × Task
unfolding transmit
service_tx_request wire now none p = (false, p)
service_tx_request wire now (some r) p =
    let done = if accepted now r p then transmit wire now r p else (TxResult.timeout, p) in
    (true, answer r done.0 done.1)

-- The start of the task with the configuration that was loaded. `ddc` is the address of the display
-- data channel, `after` the time that the last statement reads.
unfoldable pub task_start : Polls → ℕ → Config → ℕ → Task → Task
task_start polls ddc loaded after p =
    let allocated =
      allocate_logical_address polls (record p {
        menu_state = false;
        config = loaded;
        paddr = get_physical_address ddc loaded;
      }) in
    record (allocated.1) {
      laddr = allocated.0;
      queue_created = true;
      next_allocate = after + 2000000;
    }

-- A turn of the loop. `idle` is cec_frame_idle; `now`, `later` and `after` are the times that the
-- service of the request, the test for an allocation and the statement behind it read.
unfoldable pub task_turn :
    Arrival → Wire → Message → Option Request → ℕ → ℕ → ℕ → Bool → Task → Task
unfolding dispatch_message service_tx_request
task_turn e wire m request now later after idle p =
    let served = service_tx_request wire now request (dispatch_message e m p) in
    let allocated = allocate_logical_address e.polls served.1 in
    if not served.0 && not (cec_ready served.1) && leb served.1.next_allocate later && idle
    then record (allocated.1) { laddr = allocated.0; next_allocate = after + 2000000 }
    else served.1
