-- ===== src/Frame/Tx/Invariant.antt =====
-- What holds of the transmitter between two calls of its callback.
use cec_controller.Common.{ℕ, ◌≤◌, ◌<◌, ◌≡◌, refl, Bool, true, false, List, [], ◌∷◌, arith}
use cec_controller.Message.{Message, TxResult}
use cec_controller.Frame.Tx.{
  TxState, start_low, start_release, data_low, data_release, data_sample, data_end, eom_release,
  ack_release, next, Driver, Reading, Answer, tx_finish, tx_switch, inner_callback,
  frame_tx_callback, tx_begin, tx_run, on_time,
}

-- The states whose next step lets the line go.
abbrev pub holds : TxState → Bool
holds start_release = true
holds data_release = true
holds eom_release = true
holds ack_release = true
holds _ = false

-- Where the byte counter stands: on the byte that is sent, or behind it.
abbrev pub Place : TxState → ℕ → ℕ → Type 0
Place start_low byte len = byte ≡ 0
Place start_release byte len = byte ≡ 0
Place data_low byte len = byte < len
Place data_release byte len = byte < len
Place data_sample byte len = byte < len
Place data_end byte len = byte < len
Place next byte len = byte < len
Place _ byte len = (0 < byte) × (byte ≤ len)

pub record Inv (p : Driver) : Type 0 where
  -- A pulled line belongs to a running transmission that is about to let it go.
  pub held : p.driven ≡ true → (p.tx.active ≡ true) × (holds p.tx.state ≡ true)
  -- The byte that is read is one of the message.
  pub place : Place p.tx.state p.tx.byte p.tx.message.len
  pub some_byte : 0 < p.tx.message.len
  pub bit : p.tx.bit < 8

tx_switch-Inv :
    (recur : Driver → Answer) (now : ℕ) (e : Reading) (s : TxState) (p : Driver)
    → Inv p
    → p.tx.active ≡ true
    → p.tx.state ≡ s
    → ((q : Driver) → Inv q → Inv (recur q).0)
    → Inv (tx_switch recur now e s p).0
unfolding tx_switch
tx_switch-Inv recur now e start_low p v a h r = ground arith
tx_switch-Inv recur now e data_end p v a h r = r _ (ground arith)
tx_switch-Inv recur now e next p v a h r = r _ (ground arith)
tx_switch-Inv recur now e _ p v a h r = ground arith

tx_finish-Inv : (t : TxResult) (p : Driver) → Inv p → Inv (tx_finish t p).0
unfolding tx_finish
tx_finish-Inv t p v = ground arith

on_time-Inv :
    (now : ℕ) (p : Driver) (k : Answer)
    → Inv p
    → (p.tx.active ≡ true → Inv k.0)
    → Inv (on_time now p k).0
on_time-Inv now p k v h = ground (arith, tx_finish-Inv TxResult.timeout p v)

inner_callback-Inv : (e : Reading) (p : Driver) → Inv p → Inv (inner_callback e p).0
unfolding inner_callback
inner_callback-Inv e p v = on_time-Inv e.again p _ v λ a.
    tx_switch-Inv (tx_finish TxResult.bus_error) e.again e p.tx.state p v a refl
      (tx_finish-Inv TxResult.bus_error)

frame_tx_callback-Inv : (e : Reading) (p : Driver) → Inv p → Inv (frame_tx_callback e p).0
unfolding frame_tx_callback
frame_tx_callback-Inv e p v =
    on_time-Inv e.now p _ v
      λ a. tx_switch-Inv (inner_callback e) e.now e p.tx.state p v a refl (inner_callback-Inv e)

tx_run-Inv : (es : List Reading) (p : Driver) → Inv p → Inv (tx_run es p)
unfolding tx_run
tx_run-Inv [] p v = v
tx_run-Inv (e ∷ es) p v = tx_run-Inv es (frame_tx_callback e p).0 (frame_tx_callback-Inv e p v)

-- From the start of the transmission of a message that is not empty, on a line that we do not
-- hold, whatever the clock and the line do: the callback reads no byte behind the message, and
-- pulls the line only while it is active and about to let go.
pub tx_begin-Inv :
    (m : Message) (deadline : ℕ) (es : List Reading) (p : Driver)
    → 0 < m.len
    → p.driven ≡ false
    → Inv (tx_run es (tx_begin m deadline p))
unfolding tx_begin
tx_begin-Inv m deadline es p h d = tx_run-Inv es _ (ground arith)
