-- ===== src/Frame/Tx.antt =====
-- The transmitter: frame_tx_callback, which the alarm pool calls, and cec_frame_send_timeout around it.
pub mod Invariant
pub mod Steps
pub mod Play
use cec_controller.Common.{
  ℕ, zero, suc, ◌+◌, ◌*◌, ◌-◌, ◌/◌, ◌%◌, ◌^◌, Bool, true, false, not, List, [], ◌∷◌, Option, none,
  some, leb, ltb, ◌==◌, ◌&&◌, ◌||◌, if◌then◌else◌, get_or, sub64, u32,
}
use cec_controller.Message.{Message, TxResult, header}
use cec_controller.Validate.{cec_message_valid}
use cec_controller.Frame.{Stats, bump}

-- tx_state_t.
pub data TxState : Type 0 where
  start_low start_release data_low data_release data_sample data_end eom_low eom_release ack_low
        ack_release ack_sample next end :
      TxState

-- The static struct `tx`.
pub record Tx : Type 0 where
  pub message : Message
  pub state : TxState
  pub byte : ℕ
  pub bit : ℕ
  pub start : ℕ
  pub due : ℕ
  pub deadline : ℕ
  pub one : Bool
  pub active : Bool
  pub result : TxResult

-- The transmitter's variables, the direction of the pin, and the notifications to the waiting task.
pub record Driver : Type 0 where
  pub tx : Tx
  pub driven : Bool
  pub sent_at : ℕ
  pub notified : ℕ

-- One call of the callback: the clock at its start, at the start of a call of itself and at the
-- check of the next alarm, and the level of the line.
pub record Reading : Type 0 where
  pub now : ℕ
  pub again : ℕ
  pub later : ℕ
  pub high : Bool

-- The driver after a call, with the microseconds to the next one; 0 ends the series.
abbrev pub Answer : Type 0
Answer = Driver × ℕ

unfoldable pub tx_finish : TxResult → Driver → Answer
tx_finish result p = (
  record p {
    driven = false;
    tx = record (p.tx) { result = result; active = false };
    notified = u32 (p.notified + 1);
  },
  0,
)

unfoldable pub tx_next : Reading → ℕ → Driver → Answer
unfolding tx_finish
tx_next e offset p =
    let due = p.tx.start + offset in
    let q = record p { tx = record (p.tx) { due = due } } in
    if leb due e.later || leb p.tx.deadline due
    then tx_finish TxResult.timeout q
    else (q, due - e.later)

abbrev pub to_state : TxState → Driver → Driver
to_state s p = record p { tx = record (p.tx) { state = s } }

-- The steps that pull the line low from now on.
abbrev pub pull : TxState → ℕ → Driver → Driver
pull s now p = record p { driven = true; tx = record (p.tx) { start = now; state = s } }

-- The steps that let the line go.
abbrev pub let_go : TxState → Driver → Driver
let_go s p = record p { driven = false; tx = record (p.tx) { state = s } }

abbrev pub bit_of_byte : ℕ → ℕ → Bool
bit_of_byte x bit = x / 2 ^ bit % 2 == 1

abbrev pub is_broadcast : Message → Bool
is_broadcast m = header m % 16 == 15

-- case TX_ACK_SAMPLE.
unfoldable pub sample_ack : Bool → Driver → Driver
sample_ack low p =
    let broadcast = is_broadcast p.tx.message in
    if (if low then broadcast else not broadcast)
    then record p {
      tx = record (p.tx) {
        result = if broadcast then TxResult.bus_error else TxResult.no_ack;
        state = end;
      };
    }
    else to_state (if ltb p.tx.byte p.tx.message.len then next else end) p

-- The checks before the `switch`.
abbrev pub on_time : ℕ → Driver → Answer → Answer
on_time now p continue =
    if not p.tx.active
    then (p, 0)
    else if leb p.tx.deadline now || (not (p.tx.due == 0) && ltb (p.tx.due + 150) now)
    then tx_finish TxResult.timeout p
    else continue

-- The `switch`. Two states go on at once with a call of the whole callback, `recur`.
unfoldable pub tx_switch : (Driver → Answer) → ℕ → Reading → TxState → Driver → Answer
unfolding tx_next tx_finish sample_ack
tx_switch recur now e start_low p =
    tx_next e 3700 (record (pull start_release now p) { sent_at = now })
tx_switch recur now e start_release p = tx_next e 4500 (let_go data_low p)
tx_switch recur now e data_low p =
    let one = bit_of_byte (get_or p.tx.message.bytes p.tx.byte 0) p.tx.bit in
    tx_next e (if one then 600 else 1500) (record p {
      driven = true;
      tx = record (p.tx) { one = one; start = now; state = data_release };
    })
tx_switch recur now e data_release p =
    tx_next e (if p.tx.one then 1050 else 2400)
      (let_go (if p.tx.one then data_sample else data_end) p)
tx_switch recur now e data_sample p =
    if not e.high
    then tx_finish
        (if p.tx.byte == 0 && leb 4 p.tx.bit then TxResult.arbitration_lost else TxResult.bus_error)
        p
    else tx_next e 2400 (to_state data_end p)
tx_switch recur now e data_end p = recur (
    if p.tx.bit == 0
    then record p { tx = record (p.tx) { byte = p.tx.byte + 1; state = eom_low } }
    else record p { tx = record (p.tx) { bit = p.tx.bit - 1; state = data_low } })
tx_switch recur now e eom_low p =
    tx_next e (if ltb p.tx.byte p.tx.message.len then 1500 else 600) (pull eom_release now p)
tx_switch recur now e eom_release p = tx_next e 2400 (let_go ack_low p)
tx_switch recur now e ack_low p = tx_next e 600 (pull ack_release now p)
tx_switch recur now e ack_release p = tx_next e 1050 (let_go ack_sample p)
tx_switch recur now e ack_sample p = tx_next e 2400 (sample_ack (not e.high) p)
tx_switch recur now e next p = recur (record p { tx = record (p.tx) { bit = 7; state = data_low } })
tx_switch recur now e end p = tx_finish p.tx.result p

-- The callback that it calls: the state is then data_low or eom_low, which make no further call, so
-- the innermost answer is never asked for.
unfoldable pub inner_callback : Reading → Driver → Answer
unfolding tx_switch
inner_callback e p =
    on_time e.again p (tx_switch (tx_finish TxResult.bus_error) e.again e p.tx.state p)

unfoldable pub frame_tx_callback : Reading → Driver → Answer
unfolding tx_switch inner_callback
frame_tx_callback e p = on_time e.now p (tx_switch (inner_callback e) e.now e p.tx.state p)

-- The state that cec_frame_send_timeout sets up.
unfoldable pub tx_begin : Message → ℕ → Driver → Driver
tx_begin m deadline p = record p {
  tx = record {
    message = m;
    state = start_low;
    byte = 0;
    bit = 7;
    start = 0;
    due = 0;
    deadline = deadline;
    one = false;
    active = true;
    result = TxResult.ack;
  };
}

unfoldable pub tx_run : List Reading → Driver → Driver
tx_run [] p = p
tx_run (e ∷ es) p = tx_run es (frame_tx_callback e p).0
