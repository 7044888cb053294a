-- ===== src/Frame/Send/Laws.antt =====
-- What a transmission and a reception leave behind (src/cec-frame.c, cec_frame_send_timeout,
-- cec_frame_recv).
use cec_controller.Common.{
  ℕ, ◌+◌, ◌*◌, ◌≤◌, ◌<◌, ◌≡◌, ◌⊎◌, Bool, true, false, List, ◌∷◌, sub64, min,
}
use cec_controller.Message.{Message, TxResult}
use cec_controller.Validate.{cec_message_valid}
use cec_controller.Frame.Rx.{Port, is_start, rx_reset, rx_run}
use cec_controller.Frame.Tx.{Driver}
use cec_controller.Frame.Send.{Line, WaitTurn, drop_unfinished, Transmission, transmit}

-- A transmitter at rest, which does not hold the line.
pub record IsQuiet (d : Driver) : Type 0 where
  pub off : d.tx.active ≡ false
  pub let_go : d.driven ≡ false

-- The wait for an idle line, turn by turn, from the first state of the receiver to the last. In the
-- turn that ends it, nothing is being sent or received, the line is high, and its last edge was at
-- least seven bit times ago; the receiver is reset. Each turn in front of it stays below the limit.
pub data FoundIdle (limit : ℕ) (d : Driver) : List WaitTurn → Port → Port → Type 0 where
  here :
      {turn : WaitTurn} {turns : List WaitTurn} {p : Port}
      → d.tx.active ≡ false
      → is_start p.rx.state ≡ true
      → turn.high ≡ true
      → 16800 ≤ sub64 turn.at_idle p.last_edge
      → FoundIdle limit d (turn ∷ turns) p (rx_reset p)
  there :
      {turn : WaitTurn} {turns : List WaitTurn} {p q : Port}
      → turn.at_limit < limit
      → FoundIdle limit d turns (rx_run turn.events (drop_unfinished turn.at_abort p)) q
      → FoundIdle limit d (turn ∷ turns) p q

abbrev IdleFound : ℕ → Driver → List WaitTurn → Port → Bool × Port → Type 0
IdleFound limit d turns p (true, q) = FoundIdle limit d turns p q
IdleFound limit d turns p (false, q) = Unit

-- How a call ends: refused, without an idle line, or behind a transmission on an idle line.
pub data IsEnding (now later : ℕ) (turns : List WaitTurn) (t : Transmission) (message : Message)
    (timeout_ms : ℕ) (l : Line) : TxResult × Line → Type 0 where
  refused :
      (cec_message_valid message ≡ false) ⊎ (timeout_ms ≡ 0)
      → IsEnding now later turns t message timeout_ms l (TxResult.unavailable, l)
  never_idle :
      {p : Port}
      → IsEnding now later turns t message timeout_ms l
          (TxResult.timeout, record { port = p; driver = l.driver })
  sent :
      {p : Port}
      → FoundIdle (min (later + 1000000) (now + timeout_ms * 1000)) l.driver turns l.port p
      → IsEnding now later turns t message timeout_ms l
          (transmit message (now + timeout_ms * 1000) t (record { port = p; driver = l.driver }))

-- A call that has ended.
pub record IsOver (now later : ℕ) (turns : List WaitTurn) (t : Transmission) (message : Message)
    (timeout_ms : ℕ) (l : Line) (outcome : TxResult × Line) : Type 0 where
  pub quiet : IsQuiet (outcome.1.driver)
  pub ending : IsEnding now later turns t message timeout_ms l outcome

module _ (now later : ℕ) (turns : List WaitTurn) (t : Transmission) (message : Message)
    (timeout_ms : ℕ) (l : Line) where
  Over : TxResult × Line → Type 0
  Over outcome = IsOver now later turns t message timeout_ms l outcome
