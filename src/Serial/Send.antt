-- ===== src/Serial/Send.antt =====
-- The command `send` (src/usb-cdc.c, exec_send). A result is true for 0 and false for -1.
pub mod Laws
use cec_controller.Common.{
  ℕ, zero, suc, ◌+◌, ◌-◌, ◌≤◌, ◌<◌, ◌≡◌, refl, Bool, true, false, not, ◌&&◌, ◌||◌, List, [], ◌∷◌,
  ◌++◌, Option, none, some, leb, ltb, ◌==◌, if◌then◌else◌, length, get_or, drop, ◌⊎◌, pad, Text,
  codes, decimal_text, All, arith, Bool-cases, inl, inr,
}
use cec_controller.Message.{Message, TxResult, frame_max_len, header0, is_ack, is_no_ack}
use cec_controller.Control.{tx_timeout_ms}
use cec_controller.Serial.{Serial, scan_hex, cdc_printfln}
use cec_controller.Serial.Settings.{busy_text}

unfoldable pub tx_result_name : TxResult → Text
tx_result_name TxResult.ack = codes "ack"
tx_result_name TxResult.no_ack = codes "no_ack"
tx_result_name TxResult.timeout = codes "timeout"
tx_result_name TxResult.arbitration_lost = codes "arbitration_lost"
tx_result_name TxResult.bus_error = codes "bus_error"
tx_result_name TxResult.unavailable = codes "unavailable"

-- `sscanf(text, "%x", &value) == 1 && value <= limit`.
unfoldable pub scan_below : ℕ → Text → Option ℕ
unfolding scan_hex
scan_below limit text = elim (scan_hex text) [
  | none ↦ none
  | some (n, rest) ↦ if leb n limit then some n else none
]

-- An operand, in front of what the rest of the loop comes to.
abbrev pub next_operand : ℕ → Option ℕ → List ℕ ⊎ ℕ → List ℕ ⊎ ℕ
next_operand i none rest = inr i
next_operand i (some byte) (inl bytes) = inl (byte ∷ bytes)
next_operand i (some byte) (inr bad) = inr bad

-- The loop over the operands, of which at most `room` fit: the operands in order, or the index of the
-- argument that is none.
unfoldable pub operands : ℕ → ℕ → List Text → List ℕ ⊎ ℕ
unfolding scan_below
operands zero i argv = inl []
operands (suc room) i [] = inl []
operands (suc room) i (text ∷ argv) =
    next_operand i (scan_below 255 text) (operands room (suc i) argv)

-- The message with these operands.
abbrev pub send_message : ℕ → ℕ → ℕ → List ℕ → Message
send_message laddr address code bytes = record {
  bytes = pad 16 0 (header0 laddr address ∷ code ∷ bytes);
  len = 2 + length bytes;
}

-- The message that the arguments stand for, with its destination.
pub data Parsed : Type 0 where
  message : ℕ → Message → Parsed
  bad_opcode : Parsed
  bad_operand : ℕ → Parsed

unfoldable pub with_operands : ℕ → ℕ → ℕ → List ℕ ⊎ ℕ → Parsed
with_operands laddr address code (inl bytes) =
    Parsed.message address (send_message laddr address code bytes)
with_operands laddr address code (inr i) = Parsed.bad_operand i

unfoldable pub with_numbers : ℕ → List Text → Option ℕ → Option ℕ → Parsed
unfolding with_operands operands
with_numbers laddr argv (some address) (some code) =
    with_operands laddr address code (operands (frame_max_len - 2) 3 (drop 3 argv))
with_numbers laddr argv _ _ = Parsed.bad_opcode

unfoldable pub parse_message : ℕ → List Text → Parsed
unfolding with_numbers
parse_message laddr argv =
    with_numbers laddr argv (scan_below 15 (get_or argv 1 [])) (scan_below 255 (get_or argv 2 []))

-- The answer to a result of cec_send_msg_sync.
unfoldable pub report_send : ℕ → TxResult → Serial → Bool × Serial
unfolding tx_result_name
report_send address r p =
    let broadcast = address == 15 in
    if is_ack r || (broadcast && is_no_ack r)
    then (
      true,
      cdc_printfln
          (codes "CECCTRL/2 OK command=send result="
            ++ (if broadcast then codes "complete" else tx_result_name r))
          p,
    )
    else (false, cdc_printfln (codes "CECCTRL/2 ERR command=send code=" ++ tx_result_name r) p)

-- exec_send: `send` is cec_send_msg_sync, with the state that it works on.
module _ {S : Type 0} (send : Message → ℕ → S → TxResult × S) where
  unfoldable pub perform : Parsed → Serial → S → Bool × Serial × S
  unfolding report_send
  perform Parsed.bad_opcode p s = (false, cdc_printfln (codes "Error parsing opcode") p, s)
  perform (Parsed.bad_operand i) p s =
      (false, cdc_printfln (codes "Error parsing operand " ++ decimal_text i) p, s)
  perform (Parsed.message address m) p s =
      let r = send m tx_timeout_ms s in
      let answer = report_send address r.0 p in (answer.0, answer.1, r.1)

  unfoldable pub exec_send : ℕ → List Text → Serial → S → Bool × Serial × S
  unfolding perform parse_message
  exec_send laddr argv p s =
      if p.operation_busy
      then (false, cdc_printfln busy_text p, s)
      else if ltb (length argv) 3
      then (false, p, s)
      else perform (parse_message laddr argv) p s
