-- ===== src/Frame/Send.antt =====
-- A transmission from its start to its result (src/cec-frame.c, cec_frame_idle,
-- cec_frame_send_timeout, cec_frame_recv). The clock, the line and the alarms enter as what their
-- calls return; where a sequence of turns ends, the limit of time has passed.
pub mod Laws
use cec_controller.Common.{
  ℕ, ◌+◌, ◌*◌, Bool, true, false, not, ◌&&◌, ◌||◌, List, [], ◌∷◌, Option, none, some, leb, ltb,
  ◌==◌, if◌then◌else◌, sub64, min, drop,
}
use cec_controller.Message.{Message, TxResult}
use cec_controller.Validate.{cec_message_valid}
use cec_controller.Frame.{Stats, bump}
use cec_controller.Frame.Rx.{
  RxState, Port, Received, RxEvent, is_start, rx_reset, rx_abort, rx_run, recv_poll,
}
use cec_controller.Frame.Tx.{Tx, Driver, Reading, tx_begin, tx_run}

-- The line driver as a whole.
pub record Line : Type 0 where
  pub port : Port
  pub driver : Driver

unfoldable pub cec_frame_idle : ℕ → Bool → Line → Bool
cec_frame_idle now high l =
    not l.driver.tx.active
    && (is_start l.port.rx.state && (high && leb 16800 (sub64 now l.port.last_edge)))

-- One turn of the wait: the level of the line, the clock at the test for an idle line, at the test of
-- an unfinished frame and at the limit, and what the receiver meets in the pause.
pub record WaitTurn : Type 0 where
  pub high : Bool
  pub at_idle : ℕ
  pub at_abort : ℕ
  pub at_limit : ℕ
  pub events : List RxEvent

abbrev pub over : Stats → Port → Port
over s p = record p { stats = s }

unfoldable pub count_idle_timeout : Port → Port
count_idle_timeout p =
    over
      (record (p.stats) {
        tx_timeout_frames = bump p.stats.tx_timeout_frames;
        tx_idle_timeout_frames = bump p.stats.tx_idle_timeout_frames;
      })
      p

-- A frame that was left unfinished.
unfoldable pub drop_unfinished : ℕ → Port → Port
unfolding rx_abort
drop_unfinished now p =
    if not (is_start p.rx.state) && ltb 5000 (sub64 now p.last_edge) then rx_abort p else p

-- Whether the line became idle, and the receiver then.
unfoldable pub wait_idle : ℕ → Driver → List WaitTurn → Port → Bool × Port
unfolding cec_frame_idle rx_reset drop_unfinished count_idle_timeout rx_run
wait_idle limit driver [] p = (false, count_idle_timeout p)
wait_idle limit driver (turn ∷ turns) p =
    let q = drop_unfinished turn.at_abort p in
    let rest = wait_idle limit driver turns (rx_run turn.events q) in
    if cec_frame_idle turn.at_idle turn.high (record { port = p; driver = driver })
    then (true, rx_reset p)
    else if leb limit turn.at_limit
    then (false, count_idle_timeout q)
    else rest

-- The transmission: the clock where the limit of the frame is set, at the test in front of the alarm,
-- behind it and at the end; whether there is an alarm; the calls of the callback; and whether the
-- notification is there in time.
pub record Transmission : Type 0 where
  pub at_start : ℕ
  pub at_alarm : ℕ
  pub at_wait : ℕ
  pub at_end : ℕ
  pub alarm : Bool
  pub readings : List Reading
  pub in_time : Bool

-- The transmitter with its result, which is that of the callback only when it has notified.
abbrev pub set_result : TxResult → Driver → Driver
set_result result d = record d { tx = record (d.tx) { result = result } }

unfoldable pub play : Transmission → Driver → Driver
unfolding tx_run
play t d =
    let run = tx_run t.readings d in
    if ltb t.at_alarm d.tx.deadline && t.alarm
    then if ltb t.at_wait d.tx.deadline && (not (run.notified == 0) && t.in_time)
      then run
      else set_result TxResult.timeout run
    else set_result TxResult.timeout d

unfoldable pub count_result : TxResult → Stats → Stats
count_result TxResult.timeout s = record s {
  tx_timeout_frames = bump s.tx_timeout_frames;
  tx_alarm_timeout_frames = bump s.tx_alarm_timeout_frames;
}
count_result TxResult.no_ack s = record s { tx_noack_frames = bump s.tx_noack_frames }
count_result TxResult.arbitration_lost s = record s {
  tx_arbitration_frames = bump s.tx_arbitration_frames;
}
count_result TxResult.bus_error s = record s { tx_bus_error_frames = bump s.tx_bus_error_frames }
count_result _ s = record s { tx_frames = bump s.tx_frames }

-- The end: the transmitter is off, the line is let go, and the result is counted.
unfoldable pub end_transmission : ℕ → Port → Driver → TxResult × Line
unfolding count_result
end_transmission now p d = (
  d.tx.result,
  record {
    port = record p { last_edge = now; driven = false; stats = count_result d.tx.result p.stats };
    driver = record d { driven = false; tx = record (d.tx) { active = false } };
  },
)

unfoldable pub transmit : Message → ℕ → Transmission → Line → TxResult × Line
unfolding tx_begin play end_transmission
transmit message deadline t l =
    let d =
      tx_begin message (min (t.at_start + 500000) deadline) (record (l.driver) { notified = 0 }) in
    end_transmission t.at_end l.port (play t d)

abbrev pub with_idle : Message → ℕ → Transmission → Driver → Bool × Port → TxResult × Line
with_idle message deadline t driver (true, p) =
    transmit message deadline t (record { port = p; driver = driver })
with_idle message deadline t driver (false, p) =
    (TxResult.timeout, record { port = p; driver = driver })

-- `now` and `later` are the clock where the limits of the call and of the wait are set.
unfoldable pub cec_frame_send_timeout :
    ℕ → ℕ → List WaitTurn → Transmission → Message → ℕ → Line → TxResult × Line
unfolding cec_message_valid wait_idle transmit
cec_frame_send_timeout now later turns t message timeout_ms l =
    let deadline = now + timeout_ms * 1000 in
    if not (cec_message_valid message) || timeout_ms == 0
    then (TxResult.unavailable, l)
    else with_idle message deadline t l.driver
        (wait_idle (min (later + 1000000) deadline) l.driver turns l.port)

unfoldable pub cec_frame_send :
    ℕ → ℕ → List WaitTurn → Transmission → Message → Line → TxResult × Line
unfolding cec_frame_send_timeout
cec_frame_send now later turns t message l = cec_frame_send_timeout now later turns t message 1500 l

-- cec_frame_recv: the first critical section, and the queue before and behind the wait of 10 ms.
-- The message is the oldest one of the queue.
abbrev first_item : List Received → Option Received
first_item [] = none
first_item (item ∷ _) = some item

abbrev taken : Port → Option Received × Port
taken p = (first_item p.accepted, record p { accepted = drop 1 p.accepted })

abbrev pub or_wait : List RxEvent → Option Received × Port → Option Received × Port
or_wait events (some item, p) = (some item, p)
or_wait events (none, p) = taken (rx_run events p)

unfoldable pub cec_frame_recv : ℕ → ℕ → List RxEvent → Port → Option Received × Port
unfolding recv_poll rx_run
cec_frame_recv now own_address events p = or_wait events (taken (recv_poll now own_address p))
