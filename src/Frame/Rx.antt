-- ===== src/Frame/Rx.antt =====
-- The receiver: frame_rx_isr, ack_release and the time-outs of cec_frame_recv. The clock, the
-- alarm pool and the queue of the platform enter as the values that their calls return.
pub mod Invariant
pub mod Reception
pub mod Delivery
use cec_controller.Common.{
  ℕ, suc, ◌+◌, ◌*◌, ◌%◌, Bool, true, false, not, List, [], ◌∷◌, ◌++◌, Option, none, some, leb, ltb,
  ◌==◌, ◌&&◌, ◌||◌, if◌then◌else◌, u8, sub64, bit_or, get_or, set, replicate,
}
use cec_controller.Message.{Message, header, frame_max_len}
use cec_controller.Validate.{cec_message_valid}
use cec_controller.Frame.{Stats, bump, in_range}

-- rx_state_t.
pub data RxState : Type 0 where
  start start_rise bit_fall bit_rise eom_fall eom_rise ack_fall ack_rise : RxState

-- The static struct `rx`. In `bytes` of the message, the byte at index `len` is being received.
pub record Rx : Type 0 where
  pub state : RxState
  pub message : Message
  pub start : ℕ
  pub began : ℕ
  pub bit : ℕ
  pub first : Bool
  pub eom : Bool
  pub ack : Bool

-- received_t.
pub record Received : Type 0 where
  pub message : Message
  pub at : ℕ

-- The receiver's variables, the direction of the pin (`driven` is GPIO_OUT, which pulls the line
-- low), and the items that the queue has accepted, the first one first.
pub record Port : Type 0 where
  pub rx : Rx
  pub last_edge : ℕ
  pub ack_alarm : Option ℕ
  pub driven : Bool
  pub address : ℕ
  pub accepted : List Received
  pub stats : Stats

-- What the platform answers during one interrupt: the time, the alarm's id (`none` is a negative
-- one), and whether the queue has room.
pub record Platform : Type 0 where
  pub now : ℕ
  pub alarm : Option ℕ
  pub room : Bool

unfoldable pub rx_reset : Port → Port
rx_reset p = record p {
  rx = record (p.rx) { state = start; message = record (p.rx.message) { len = 0 }; bit = 0 };
  ack_alarm = none;
  driven = false;
}

unfoldable pub count_abort : Port → Port
count_abort p = record p {
  stats = record (p.stats) { rx_abort_frames = bump p.stats.rx_abort_frames };
}

unfoldable pub rx_abort : Port → Port
unfolding rx_reset count_abort
rx_abort p = rx_reset (count_abort p)

unfoldable pub ack_release : Port → Port
ack_release p = record p { ack_alarm = none; driven = false }

abbrev pub expect_fall : RxState → Bool
expect_fall start = true
expect_fall bit_fall = true
expect_fall eom_fall = true
expect_fall ack_fall = true
expect_fall _ = false

abbrev pub is_start : RxState → Bool
is_start start = true
is_start _ = false

abbrev empty_message : Message
empty_message = record { bytes = replicate 16 0; len = 0 }

-- case RX_START.
unfoldable pub begin_frame : Platform → Port → Port
begin_frame e p = record p {
  rx = record (p.rx) {
    message = empty_message;
    start = e.now;
    began = e.now;
    first = true;
    ack = false;
    bit = 0;
    state = start_rise;
  };
}

-- The branch of RX_ACK_FALL that answers a frame to this device.
unfoldable pub drive_ack : Platform → Port → Port
unfolding rx_abort
drive_ack e p = elim e.alarm [
  | none ↦ rx_abort (record p { driven = true; ack_alarm = none })
  | some id ↦ record p { driven = true; ack_alarm = some id; rx = record (p.rx) { ack = true } }
]

-- The cases of a falling edge, once its distance from the one before is right.
unfoldable pub fall_to : RxState → Platform → Port → Port
unfolding rx_abort drive_ack
fall_to bit_fall e p =
    if leb frame_max_len p.rx.message.len
    then rx_abort p
    else record p { rx = record (p.rx) { state = bit_rise } }
fall_to eom_fall e p = record p { rx = record (p.rx) { state = eom_rise } }
fall_to _ e p =
    let q = record p { rx = record (p.rx) { state = ack_rise } } in
    if header p.rx.message % 16 == p.address && ltb p.address 15 then drive_ack e q else q

unfoldable pub on_fall : RxState → Platform → ℕ → Port → Port
unfolding rx_abort fall_to
on_fall state e duration p =
    if not
      (in_range duration (if p.rx.first then 4300 else 2050) (if p.rx.first then 4700 else 2750))
    then rx_abort p
    else fall_to state e (record p { rx = record (p.rx) { first = false; start = e.now } })

abbrev pub bit_of : Bool → ℕ
bit_of true = 1
bit_of false = 0

-- (*byte << 1) | one, in a uint8_t.
unfoldable pub shift_in : ℕ → Bool → ℕ
shift_in byte one = u8 (bit_or (byte * 2) (bit_of one))

-- case RX_BIT_RISE.
unfoldable pub store_bit : Bool → Port → Port
unfolding rx_abort
store_bit one p =
    let m = p.rx.message in
    let bytes = set m.bytes m.len (shift_in (get_or m.bytes m.len 0) one) in
    if leb frame_max_len m.len
    then rx_abort p
    else if p.rx.bit + 1 == 8
    then record p {
      rx = record (p.rx) {
        message = record { bytes = bytes; len = m.len + 1 };
        bit = 0;
        state = eom_fall;
      };
    }
    else record p {
      rx = record (p.rx) {
        message = record m { bytes = bytes };
        bit = p.rx.bit + 1;
        state = bit_fall;
      };
    }

-- case RX_EOM_RISE.
unfoldable pub store_eom : Bool → Port → Port
unfolding rx_abort
store_eom one p =
    let q = record p { rx = record (p.rx) { eom = one } } in
    if not one && p.rx.message.len == frame_max_len
    then rx_abort q
    else record q { rx = record (q.rx) { state = ack_fall } }

-- The end of a frame: the message goes to the queue.
unfoldable pub accept : Platform → Port → Port
unfolding rx_reset count_abort
accept e p = rx_reset (
    if cec_message_valid p.rx.message && e.room
    then record p {
      accepted = p.accepted ++ record { message = p.rx.message; at = e.now } ∷ [];
      stats = record (p.stats) { rx_frames = bump p.stats.rx_frames };
    }
    else count_abort p)

abbrev pub is_one : ℕ → Bool
is_one duration = in_range duration 400 800

abbrev pub is_zero : ℕ → Bool
is_zero duration = in_range duration 1300 1700

-- The `switch` over the state.
unfoldable pub on_edge : RxState → Platform → ℕ → Port → Port
unfolding rx_abort begin_frame on_fall store_bit store_eom accept
on_edge start e duration p = begin_frame e p
on_edge start_rise e duration p =
    if not (in_range duration 3500 3900)
    then rx_abort p
    else record p { rx = record (p.rx) { state = bit_fall } }
on_edge bit_fall e duration p = on_fall bit_fall e duration p
on_edge eom_fall e duration p = on_fall eom_fall e duration p
on_edge ack_fall e duration p = on_fall ack_fall e duration p
on_edge bit_rise e duration p =
    if not (is_one duration) && not (is_zero duration)
    then rx_abort p
    else store_bit (is_one duration) p
on_edge eom_rise e duration p =
    if not (is_one duration) && not (is_zero duration)
    then rx_abort p
    else store_eom (is_one duration) p
on_edge ack_rise e duration p =
    if not (is_one duration) && not (is_zero duration)
    then rx_abort p
    else if p.rx.eom
    then accept e p
    else record p { rx = record (p.rx) { state = bit_fall } }

abbrev same : Bool → Bool → Bool
same true b = b
same false b = not b

-- frame_rx_isr. The pin is the CEC pin or another; the events are the edges that were latched.
unfoldable pub frame_rx_isr : Platform → (cec_pin rise fall : Bool) → Port → Port
unfolding rx_abort on_edge
frame_rx_isr e cec_pin rise fall p0 =
    let p = record p0 { last_edge = e.now } in
    if not cec_pin
    then p0
    else if rise && fall
    then rx_abort p
    else if not (same fall (expect_fall p.rx.state))
    then p
    else if not (is_start p.rx.state) && ltb 450000 (sub64 e.now p.rx.began)
    then rx_abort p
    else on_edge p.rx.state e (sub64 e.now p.rx.start) p

-- The first critical section of cec_frame_recv: the address, and a frame that was left unfinished.
unfoldable pub recv_poll : ℕ → ℕ → Port → Port
unfolding rx_abort
recv_poll now own_address p0 =
    let p = record p0 { address = own_address } in
    if not (is_start p.rx.state)
      && (ltb 5000 (sub64 now p.last_edge) || ltb 450000 (sub64 now p.rx.began))
    then rx_abort p
    else p

-- What can happen to the receiver.
pub data RxEvent : Type 0 where
  edge : Platform → (cec_pin rise fall : Bool) → RxEvent
  release : RxEvent
  poll : (now own_address : ℕ) → RxEvent

unfoldable pub rx_step : RxEvent → Port → Port
unfolding frame_rx_isr ack_release recv_poll
rx_step (edge e cec_pin rise fall) p = frame_rx_isr e cec_pin rise fall p
rx_step release p = ack_release p
rx_step (poll now own_address) p = recv_poll now own_address p

unfoldable pub rx_run : List RxEvent → Port → Port
rx_run [] p = p
rx_run (e ∷ es) p = rx_run es (rx_step e p)
