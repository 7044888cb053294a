-- ===== src/Tests/Tasks.antt =====
-- Messages and requests that the CEC task handles at address 4.
use cec_controller.Common.{
  ◌+◌, ◌*◌, ◌≡◌, ◌≢◌, refl, true, false, none, some, [], ◌∷◌, ◌++◌, ◌==◌, if◌then◌else◌, ◌⊎◌, arith,
}
use cec_controller.CecId.{CecId, cec_id, opcode_of}
use cec_controller.Message.{Message, TxResult, message, tx_code}
use cec_controller.Validate.{cec_message_valid, minimum}
use cec_controller.Config.{cec_config_set_default}
use cec_controller.Task.{Task, cec_ready, cec_routing_confirmed}
use cec_controller.Task.Allocate.{Polls, allocate_logical_address, get_physical_address}
use cec_controller.Task.Allocate.Laws.{IsFree, allocate_logical_address_lem}
use cec_controller.Task.Dispatch.{
  Arrival, dispatch_message, switch_opcode, refresh_address, answer_route, active_source,
}
use cec_controller.Task.Dispatch.Invariant.{IsStranger, Kept, Yielded, dispatch_message-Kept}
use cec_controller.Task.Dispatch.Routing.{AnyRoutesTo, dispatch_all, dispatch_all-RoutesTo}
use cec_controller.Task.Client.{Rounds, wait_answer, settle}
use cec_controller.Task.Service.{Request, Wire, service_tx_request}
use cec_controller.Task.Service.Laws.{
  Served, service_tx_request-Served, wait_answer-own, settle-cancelled,
}

-- Every address is taken but 8.
abbrev polls : Polls
polls k a = if a == 8 then TxResult.no_ack else TxResult.ack

abbrev idle_task : Task
idle_task = record {
  config = cec_config_set_default;
  laddr = 4;
  paddr = 0x3000;
  active_addr = 0;
  audio_status = false;
  queue_created = true;
  waiter = some 9;
  tx_generation = 6;
  cancelled_tx = 0;
  power_query_since = 500;
  power_query_deadline = 1500;
  source_active = true;
  menu_state = false;
  next_allocate = 0;
  routing_address = 0;
  routing_at = 0;
  sent = [];
  notified = [];
  lamps = [];
}

abbrev arrival : Arrival
arrival = record { arrived = 1000; now = 1001; ddc = 0x1000; polls = polls }

-- The television reports that it is on, and then routes to 3.0.0.0.
abbrev report : Message
report = message 0x04 CecId.report_power_status (0 ∷ []) 3

abbrev route : Message
route = message 0x0f CecId.routing_change (0 ∷ 0 ∷ 0x30 ∷ 0 ∷ []) 6

dispatch_message-Kept_example :
    (IsStranger report idle_task
      × Yielded 1001 idle_task (dispatch_message arrival report idle_task))
    ⊎ ((IsStranger report idle_task → ⊥)
        × Kept arrival report idle_task (dispatch_message arrival report idle_task))
dispatch_message-Kept_example = dispatch_message-Kept arrival report idle_task (omega arith)

dispatch_all-RoutesTo_example : AnyRoutesTo 0x3000 900 ((arrival, report) ∷ (arrival, route) ∷ [])
unfolding cec_routing_confirmed dispatch_all dispatch_message switch_opcode refresh_address
    answer_route active_source cec_ready get_physical_address cec_message_valid minimum cec_id
    opcode_of cec_config_set_default
dispatch_all-RoutesTo_example =
    dispatch_all-RoutesTo 0x3000 900 ((arrival, report) ∷ (arrival, route) ∷ []) idle_task
      (omega arith) refl refl

allocate_logical_address_lem_example :
    (((allocate_logical_address polls idle_task).0 ≡ 15)
      ⊎ IsFree polls 0 idle_task (allocate_logical_address polls idle_task)
      ⊎ ((idle_task.config.device_type ≡ 5) × ((allocate_logical_address polls idle_task).0 ≡ 5)))
    × (idle_task.config.logical_address ≢ 0
        → idle_task.config.logical_address ≢ 15
        → ((allocate_logical_address polls idle_task).0 ≡ 15)
          ⊎ ((allocate_logical_address polls idle_task).0 ≡ idle_task.config.logical_address))
unfolding cec_config_set_default
allocate_logical_address_lem_example = allocate_logical_address_lem polls idle_task (omega arith)

abbrev wire : Wire
wire m t = (TxResult.ack, 1234)

abbrev request : Request
request = record {
  message = message 0x40 CecId.image_view_on [] 2;
  requester = 9;
  id = 7;
  deadline = 5000;
}

service_tx_request-Served_example :
    Served wire 1000 request idle_task ((service_tx_request wire 1000 (some request) idle_task).1)
service_tx_request-Served_example =
    service_tx_request-Served wire 1000 request idle_task (omega arith)

-- The answer to request 6 comes late, then the own one.
abbrev stale : Rounds
stale = (1000, some (6 * 256 + 3)) ∷ (2000, none) ∷ []

wait_answer-own_example :
    wait_answer 7 5000 (stale ++ (3000, some (7 * 256 + tx_code TxResult.no_ack)) ∷ [])
    ≡ some (some (tx_code TxResult.no_ack))
unfolding tx_code
wait_answer-own_example =
    wait_answer-own 7 5000 3000 stale [] TxResult.no_ack
      ((omega arith, omega arith), (omega arith, tt)) (omega arith)

settle-cancelled_example :
    (wait_answer 7 5000 (stale ++ (5000, none) ∷ []) ≡ some none)
    × ((settle request none idle_task).0 ≡ tx_code TxResult.timeout)
    × ((service_tx_request wire 4000 (some request) ((settle request none idle_task).1)).1.sent
        ≡ [])
settle-cancelled_example =
    settle-cancelled wire 4000 5000 stale [] none request idle_task
      ((omega arith, omega arith), (omega arith, tt)) (omega arith)
