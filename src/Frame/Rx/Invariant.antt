-- ===== src/Frame/Rx/Invariant.antt =====
-- What holds of the receiver between two events.
use cec_controller.Common.{
  ℕ, ◌≤◌, ◌<◌, ◌≡◌, refl, Bool, true, false, List, [], ◌∷◌, arith, is_some, length, length-set, All,
  All-append, sub64, get_or,
}
use cec_controller.Validate.{cec_message_valid}
use cec_controller.Frame.Rx.{
  RxState, start, start_rise, bit_fall, bit_rise, eom_fall, eom_rise, ack_fall, ack_rise, Port,
  Platform, Received, RxEvent, edge, release, poll, rx_abort, begin_frame, on_fall, store_bit,
  store_eom, accept, on_edge, frame_rx_isr, rx_step, rx_run, shift_in, is_one,
}

-- How many bytes are complete in each state.
abbrev pub LenIn : RxState → ℕ → Type 0
LenIn start n = n ≤ 16
LenIn start_rise n = n ≡ 0
LenIn bit_fall n = n < 16
LenIn bit_rise n = n < 16
LenIn eom_fall n = (0 < n) × (n ≤ 16)
LenIn eom_rise n = (0 < n) × (n ≤ 16)
LenIn ack_fall n = (0 < n) × (n ≤ 16)
LenIn ack_rise n = (0 < n) × (n ≤ 16)

abbrev pub EomLen : RxState → Bool → ℕ → Type 0
EomLen ack_fall false n = n < 16
EomLen ack_rise false n = n < 16
EomLen _ _ n = Unit

abbrev pub IsValid : Received → Type 0
IsValid item = cec_message_valid item.message ≡ true

pub record Inv (p : Port) : Type 0 where
  -- The byte that is written next is one of the sixteen.
  pub room : length p.rx.message.bytes ≡ 16
  pub len : LenIn p.rx.state p.rx.message.len
  pub open_end : EomLen p.rx.state p.rx.eom p.rx.message.len
  pub bit : p.rx.bit < 8
  -- The line is held low only while the alarm that lets it go is set.
  pub held : p.driven ≡ true → is_some p.ack_alarm ≡ true
  -- Only valid messages reach the queue.
  pub valid : All IsValid p.accepted

rx_abort-Inv :
    (p : Port) → length p.rx.message.bytes ≡ 16 → All IsValid p.accepted → Inv (rx_abort p)
unfolding rx_abort
rx_abort-Inv p h v = ground arith

begin_frame-Inv : (e : Platform) (p : Port) → Inv p → Inv (begin_frame e p)
unfolding begin_frame
begin_frame-Inv e p v = ground arith

store_bit-Inv : (one : Bool) (p : Port) → Inv p → p.rx.state ≡ bit_rise → Inv (store_bit one p)
unfolding store_bit
store_bit-Inv one p v h = ground (
  arith,
  length-set p.rx.message.bytes p.rx.message.len
      (shift_in (get_or p.rx.message.bytes p.rx.message.len 0) one),
)

store_eom-Inv : (one : Bool) (p : Port) → Inv p → p.rx.state ≡ eom_rise → Inv (store_eom one p)
unfolding store_eom
store_eom-Inv one p v h = ground arith

-- A valid message may join the queue.
accept-Inv : (e : Platform) (p : Port) → Inv p → p.rx.state ≡ ack_rise → Inv (accept e p)
unfolding accept
accept-Inv e p v h =
    ground
      (arith, All-append IsValid p.accepted (record { message = p.rx.message; at = e.now } ∷ []))

falls : RxState → Bool
falls bit_fall = true
falls eom_fall = true
falls ack_fall = true
falls _ = false

on_fall-Inv :
    (s : RxState) (e : Platform) (d : ℕ) (p : Port)
    → Inv p
    → p.rx.state ≡ s
    → falls s ≡ true
    → Inv (on_fall s e d p)
unfolding on_fall falls
on_fall-Inv bit_fall e d p v h f = ground arith
on_fall-Inv eom_fall e d p v h f = ground arith
on_fall-Inv ack_fall e d p v h f = ground arith
on_fall-Inv _ e d p v h f = cc

on_edge-Inv :
    (s : RxState) (e : Platform) (d : ℕ) (p : Port) → Inv p → p.rx.state ≡ s → Inv (on_edge s e d p)
unfolding on_edge falls
on_edge-Inv start e d p v h = begin_frame-Inv e p v
on_edge-Inv start_rise e d p v h = ground arith
on_edge-Inv bit_fall e d p v h = on_fall-Inv bit_fall e d p v h refl
on_edge-Inv eom_fall e d p v h = on_fall-Inv eom_fall e d p v h refl
on_edge-Inv ack_fall e d p v h = on_fall-Inv ack_fall e d p v h refl
on_edge-Inv bit_rise e d p v h = ground (arith, store_bit-Inv (is_one d) p v h, rx_abort-Inv p)
on_edge-Inv eom_rise e d p v h = ground (arith, store_eom-Inv (is_one d) p v h, rx_abort-Inv p)
on_edge-Inv ack_rise e d p v h = ground (arith, accept-Inv e p v h, rx_abort-Inv p)

frame_rx_isr-Inv :
    (e : Platform) (cec_pin rise fall : Bool) (p : Port)
    → Inv p
    → Inv (frame_rx_isr e cec_pin rise fall p)
unfolding frame_rx_isr
frame_rx_isr-Inv e cec_pin rise fall p v =
    let q = record p { last_edge = e.now } in
    let w : Inv q = record {
      room = v.room;
      len = v.len;
      open_end = v.open_end;
      bit = v.bit;
      held = v.held;
      valid = v.valid;
    } in
    ground (arith, v, w, rx_abort-Inv q, on_edge-Inv p.rx.state e (sub64 e.now p.rx.start) q w refl)

rx_step-Inv : (e : RxEvent) (p : Port) → Inv p → Inv (rx_step e p)
unfolding rx_step
rx_step-Inv (edge e cec_pin rise fall) p v = frame_rx_isr-Inv e cec_pin rise fall p v
rx_step-Inv release p v = ground arith
rx_step-Inv (poll now own) p v = ground arith

-- From a state with the invariant, whatever happens on the line, at whatever times: the buffer
-- is never overrun, only valid messages reach the queue, and the line is held low only while
-- the alarm that releases it is set.
pub rx_run-Inv : (es : List RxEvent) (p : Port) → Inv p → Inv (rx_run es p)
unfolding rx_run
rx_run-Inv [] p v = v
rx_run-Inv (e ∷ es) p v = rx_run-Inv es (rx_step e p) (rx_step-Inv e p v)
