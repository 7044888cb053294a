-- ===== src/Serial/Send/Laws.antt =====
-- What the command `send` gives to the bus.
use cec_controller.Common.{
  ℕ, zero, suc, ◌≤◌, ◌<◌, ◌≡◌, refl, sym, subst, Bool, false, ◌&&◌, ◌||◌, List, [], ◌∷◌, ◌⊎◌, inl,
  inr, Option, none, some, ltb, leb, ◌==◌, if◌then◌else◌, length, get_or, drop, pad, Text, All,
  arith, length-pad, Bool-cases,
}
use cec_controller.Message.{Message, TxResult, header0, is_ack, is_no_ack}
use cec_controller.Control.{tx_timeout_ms}
use cec_controller.Serial.{Serial, scan_hex}
use cec_controller.Serial.Send.{
  scan_below, next_operand, operands, Parsed, message, bad_opcode, bad_operand, with_operands,
  with_numbers, parse_message, report_send, perform, exec_send,
}

Below : ℕ → Option ℕ → Type 0
Below limit none = Unit
Below limit (some n) = n ≤ limit

scan_below-Below : (limit : ℕ) (text : Text) → Below limit (scan_below limit text)
unfolding scan_below Below
scan_below-Below limit text = go (scan_hex text)
  where
    go :
        (found : Option (ℕ × Text))
        → Below limit
            (elim found [ none ↦ none | some (n, rest) ↦ if leb n limit then some n else none ])
    go none = tt
    go (some (n, rest)) = elim (Bool-cases (leb n limit)) [
      | inl fits ↦ rw fits (ground arith)
      | inr over ↦ rw over tt
    ]

Fit : ℕ → List ℕ ⊎ ℕ → Type 0
Fit room (inl bytes) = (length bytes ≤ room) × All (λ b. b < 256) bytes
Fit room (inr i) = Unit

next_operand-Fit :
    (room i : ℕ) (byte : Option ℕ) (rest : List ℕ ⊎ ℕ)
    → Below 255 byte
    → Fit room rest
    → Fit (suc room) (next_operand i byte rest)
unfolding Below Fit
next_operand-Fit room i none rest b f = tt
next_operand-Fit room i (some byte) (inl bytes) b f = (omega (arith, f.0), (omega (arith, b), f.1))
next_operand-Fit room i (some byte) (inr bad) b f = tt

operands-Fit : (room i : ℕ) (argv : List Text) → Fit room (operands room i argv)
unfolding operands Fit
operands-Fit zero i argv = (omega arith, tt)
operands-Fit (suc room) i [] = (omega arith, tt)
operands-Fit (suc room) i (text ∷ argv) =
    next_operand-Fit room i (scan_below 255 text) (operands room (suc i) argv)
      (scan_below-Below 255 text) (operands-Fit room (suc i) argv)

-- A message for the bus: 16 bytes, of which it has from 2 on, with the destination in the header.
pub record IsWhole (laddr address : ℕ) (m : Message) : Type 0 where
  pub low : 2 ≤ m.len
  pub high : m.len ≤ 16
  pub array : length m.bytes ≡ 16
  pub bytes : All (λ b. b < 256) m.bytes
  pub destination : address ≤ 15
  pub header : get_or m.bytes 0 0 ≡ header0 laddr address

Whole : ℕ → Parsed → Type 0
Whole laddr (message address m) = IsWhole laddr address m
Whole laddr bad_opcode = Unit
Whole laddr (bad_operand i) = Unit

All-pad {κ} :
    {A : Type 0} (P : A → Type κ) (n : ℕ) (d : A) (xs : List A)
    → P d
    → All P xs
    → All P (pad n d xs)
All-pad P zero d xs v all = tt
All-pad P (suc n) d [] v all = (v, All-pad P n d [] v tt)
All-pad P (suc n) d (x ∷ xs) v all = (all.0, All-pad P n d xs v all.1)

header0_below : (laddr address : ℕ) → header0 laddr address < 256
unfolding header0
header0_below laddr address = omega arith

with_operands-Whole :
    (laddr address code : ℕ) (found : List ℕ ⊎ ℕ)
    → address ≤ 15
    → code < 256
    → Fit 14 found
    → Whole laddr (with_operands laddr address code found)
unfolding with_operands Fit Whole
with_operands-Whole laddr address code (inl bytes) a c f = record {
  low = omega arith;
  high = omega (arith, f.0);
  array = length-pad 16 0 (header0 laddr address ∷ code ∷ bytes);
  bytes = (header0_below laddr address, (c, All-pad (λ b. b < 256) 14 0 bytes (omega arith) f.1));
  destination = a;
  header = refl;
}
with_operands-Whole laddr address code (inr i) a c f = tt

parse_message-Whole : (laddr : ℕ) (argv : List Text) → Whole laddr (parse_message laddr argv)
unfolding parse_message with_numbers Whole Below
parse_message-Whole laddr argv =
    go (scan_below 15 (get_or argv 1 [])) (scan_below 255 (get_or argv 2 []))
      (scan_below-Below 15 (get_or argv 1 [])) (scan_below-Below 255 (get_or argv 2 []))
  where
    go :
        (address code : Option ℕ)
        → Below 15 address
        → Below 255 code
        → Whole laddr (with_numbers laddr argv address code)
    go (some address) (some code) a c =
        with_operands-Whole laddr address code (operands 14 3 (drop 3 argv)) a (omega (arith, c))
          (operands-Fit 14 3 (drop 3 argv))
    go none code a c = tt
    go (some address) none a c = tt

-- Whether a result of the transmission is a success.
abbrev pub accepted : ℕ → TxResult → Bool
accepted address r = is_ack r || (address == 15 && is_no_ack r)

report_send-accepted :
    (address : ℕ) (r : TxResult) (p : Serial) → (report_send address r p).0 ≡ accepted address r
unfolding report_send
report_send-accepted address r p = ground arith

-- The bus is given nothing, or one message for the limit of a transmission, and then the command
-- succeeds exactly when the message is acknowledged, or has gone out as a broadcast.
pub data Sent {S : Type 0} (send : Message → ℕ → S → TxResult × S) (laddr : ℕ) (s : S)
    : Bool × S → Type 0 where
  nothing : Sent send laddr s (false, s)
  sent :
      (address : ℕ) (m : Message)
      → IsWhole laddr address m
      → Sent send laddr s (accepted address (send m tx_timeout_ms s).0, (send m tx_timeout_ms s).1)

-- The command `send`, with any words as its arguments and any bus, either fails and leaves the bus
-- alone, or hands it one whole message: 2 to 16 bytes of 8 bits, with the own address and the
-- destination in the first. It succeeds when this message is acknowledged, or has no answer as a
-- broadcast, and fails otherwise.
pub exec_send-IsSent :
    {S : Type 0} (send : Message → ℕ → S → TxResult × S) (laddr : ℕ) (argv : List Text) (p : Serial)
    (s : S)
    → let r = exec_send send laddr argv p s in Sent send laddr s (r.0, r.2)
unfolding exec_send perform Whole
exec_send-IsSent send laddr argv p s = elim (Bool-cases p.operation_busy) [
  | inl busy ↦ rw busy nothing
  | inr idle ↦ elim (Bool-cases (ltb (length argv) 3)) [
    | inl few ↦ rw idle (rw few nothing)
    | inr enough ↦
        rw idle (rw enough (go (parse_message laddr argv) (parse_message-Whole laddr argv)))
  ]
]
  where
    go :
        (parsed : Parsed)
        → Whole laddr parsed
        → let r = perform send parsed (record p { operation_busy = false }) s in
          Sent send laddr s (r.0, r.2)
    go (message address m) w =
        subst (λ b. Sent send laddr s (b, (send m tx_timeout_ms s).1))
          (sym (
            report_send-accepted address (send m tx_timeout_ms s).0
              (record p { operation_busy = false })))
          (sent address m w)
    go bad_opcode w = nothing
    go (bad_operand i) w = nothing
