-- ===== src/Tests/Lines.antt =====
-- A frame that is logged, and one that is sent on a line that is busy first.
use cec_controller.Common.{◌≡◌, refl, true, false, List, [], ◌∷◌, none, some, replicate}
use cec_controller.CecId.{CecId, cec_id, opcode_of}
use cec_controller.Message.{Message, message, TxResult}
use cec_controller.Validate.{cec_message_valid, minimum}
use cec_controller.Log.{cec_log_init, cec_log_enable, cec_log_frame, frame_line}
use cec_controller.Log.Laws.{bytes_text, cec_log_frame-whole}
use cec_controller.Frame.{no_stats}
use cec_controller.Frame.Rx.{RxState}
use cec_controller.Frame.Tx.{TxState}
use cec_controller.Frame.Send.{Line, WaitTurn, Transmission}

abbrev image_view_on : Message
image_view_on = message 0x40 CecId.image_view_on [] 2

cec_log_frame-whole_example :
    cec_log_frame
      (λ line queue. line ∷ queue)
      1234
      false
      image_view_on
      true
      (cec_log_enable cec_log_init)
    ≡ some (record {
      enabled = true;
      queue = frame_line 1234 false image_view_on true (bytes_text image_view_on 2 0) ∷ [];
    })
unfolding cec_message_valid minimum cec_id opcode_of
cec_log_frame-whole_example =
    cec_log_frame-whole (λ line queue. line ∷ queue) 1234 false image_view_on true
      (cec_log_enable cec_log_init) refl

abbrev empty : Message
empty = record { bytes = replicate 16 0; len = 0 }

abbrev line : Line
line = record {
  port = record {
    rx = record {
      state = RxState.start;
      message = empty;
      start = 0;
      began = 0;
      bit = 0;
      first = false;
      eom = false;
      ack = false;
    };
    last_edge = 1000;
    ack_alarm = none;
    driven = false;
    address = 4;
    accepted = [];
    stats = no_stats;
  };
  driver = record {
    tx = record {
      message = empty;
      state = TxState.end;
      byte = 0;
      bit = 0;
      start = 0;
      due = 0;
      deadline = 0;
      one = false;
      active = false;
      result = TxResult.ack;
    };
    driven = false;
    sent_at = 0;
    notified = 0;
  };
}

abbrev turns : List WaitTurn
turns =
    record { high = false; at_idle = 2000; at_abort = 2001; at_limit = 2002; events = [] }
    ∷ record { high = true; at_idle = 20000; at_abort = 20001; at_limit = 20002; events = [] }
    ∷ []

abbrev transmission : Transmission
transmission = record {
  at_start = 20010;
  at_alarm = 20011;
  at_wait = 20012;
  at_end = 530000;
  alarm = true;
  readings = record { now = 20020; again = 20020; later = 20021; high = true } ∷ [];
  in_time = false;
}
