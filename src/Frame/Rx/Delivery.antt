-- ===== src/Frame/Rx/Delivery.antt =====
-- A frame of nominal shape reaches the queue as the message that it carries.
use cec_controller.Common.{ℕ, ◌+◌, ◌*◌, ◌<◌, Bool, List, length, pad}
use cec_controller.Message.{Message}
use cec_controller.Frame.Rx.{bit_fall, Port, Received}
use cec_controller.Frame.Rx.Reception.{Ready}

-- The message that some bytes make.
abbrev pub of_bytes : List ℕ → Message
of_bytes xs = record { bytes = pad 16 0 xs; len = length xs }

abbrev pub IsByte : ℕ → Type 0
IsByte x = x < 256

module _ (id began : ℕ) (accepted : List Received) where
  abbrev Waiting : ℕ → List ℕ → Bool → Port → Type 0
  Waiting t done first p = Ready bit_fall began t (pad 16 0 done) (length done) 0 first accepted p

  abbrev slot : List ℕ → ℕ
  slot done = began + 4500 + 24000 * length done
