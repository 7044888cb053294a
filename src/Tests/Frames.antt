-- ===== src/Tests/Frames.antt =====
-- Frames on the wire: the message 40 04 (Image View On from address 4), and a damaged one.
use cec_controller.Common.{refl, true, false, none, List, [], ◌∷◌, map, replicate, arith}
use cec_controller.Message.{Message, TxResult}
use cec_controller.Frame.{no_stats}
use cec_controller.Frame.Rx.{RxState, Port, RxEvent, rx_run}
use cec_controller.Frame.Rx.Invariant.{Inv, rx_run-Inv}
use cec_controller.Frame.Rx.Reception.{to_event}
use cec_controller.Frame.Rx.Delivery.{of_bytes}
use cec_controller.Frame.Tx.{TxState, Driver, Reading, tx_begin, tx_run}
use cec_controller.Frame.Tx.Invariant
use cec_controller.Frame.Tx.Invariant.{tx_begin-Inv}

abbrev quiet_port : Port
quiet_port = record {
  rx = record {
    state = RxState.start;
    message = record { bytes = replicate 16 0; len = 0 };
    start = 0;
    began = 0;
    bit = 0;
    first = false;
    eom = false;
    ack = false;
  };
  last_edge = 0;
  ack_alarm = none;
  driven = false;
  address = 0;
  accepted = [];
  stats = no_stats;
}

abbrev quiet_driver : Driver
quiet_driver = record {
  tx = record {
    message = record { bytes = replicate 16 0; len = 0 };
    state = TxState.start_low;
    byte = 0;
    bit = 0;
    start = 0;
    due = 0;
    deadline = 0;
    one = false;
    active = false;
    result = TxResult.unavailable;
  };
  driven = false;
  sent_at = 0;
  notified = 0;
}

abbrev image_view_on : Message
image_view_on = of_bytes (0x40 ∷ 0x04 ∷ [])

quiet_port-Inv : Inv quiet_port
quiet_port-Inv = record {
  room = refl;
  len = omega arith;
  open_end = tt;
  bit = omega arith;
  held = λ h. h;
  valid = tt;
}

-- Two bytes, of which the second is cut short by a pulse that is no bit.
abbrev damaged : List RxEvent
damaged = map (to_event 1) (
    record { at = 1000; falls = true }
    ∷ record { at = 4700; falls = false }
    ∷ record { at = 5500; falls = true }
    ∷ record { at = 5900; falls = false }
    ∷ [])

rx_run-Inv_example : Inv (rx_run damaged quiet_port)
rx_run-Inv_example = rx_run-Inv damaged quiet_port quiet_port-Inv

-- The line is seen low while the bus is taken: the transmission goes on and the driver looks twice.
abbrev readings : List Reading
readings =
    record { now = 1000; again = 1001; later = 1002; high = true }
    ∷ record { now = 4700; again = 4701; later = 4702; high = true }
    ∷ []

tx_begin-Inv_example : Invariant.Inv (tx_run readings (tx_begin image_view_on 1000000 quiet_driver))
tx_begin-Inv_example = tx_begin-Inv image_view_on 1000000 readings quiet_driver (omega arith) refl
