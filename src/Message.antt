-- ===== src/Message.antt =====
-- A CEC message (include/cec-message.h): up to 16 bytes, whose first two are header and opcode.
use cec_controller.Common.{
  ℕ, suc, ◌+◌, ◌*◌, ◌/◌, ◌%◌, ◌<◌, ◌≡◌, refl, List, ◌∷◌, bit_or, arith, ◌==◌, u8, get_or, pad,
  all_below, all_below_sound, Bool, true, false,
}
use cec_controller.CecId.{CecId, opcode_of}

abbrev pub frame_max_len : ℕ
frame_max_len = 16

-- cec_message_t. The union of `header`, `opcode`, `operand` with `data` is the list of its bytes.
pub record Message : Type 0 where
  pub bytes : List ℕ
  pub len : ℕ

abbrev pub header : Message → ℕ
header m = get_or m.bytes 0 0

abbrev pub opcode : Message → ℕ
opcode m = get_or m.bytes 1 0

abbrev pub operand : Message → ℕ → ℕ
operand m i = get_or m.bytes (suc (suc i)) 0

-- cec_tx_result_t.
pub data TxResult : Type 0 where
  ack no_ack timeout unavailable arbitration_lost bus_error : TxResult

-- The value of an enumerator.
unfoldable pub tx_code : TxResult → ℕ
tx_code TxResult.ack = 1
tx_code TxResult.no_ack = 2
tx_code TxResult.timeout = 3
tx_code TxResult.unavailable = 4
tx_code TxResult.arbitration_lost = 5
tx_code TxResult.bus_error = 6

abbrev pub is_ack : TxResult → Bool
is_ack TxResult.ack = true
is_ack _ = false

abbrev pub is_no_ack : TxResult → Bool
is_no_ack TxResult.no_ack = true
is_no_ack _ = false

abbrev pub is_timeout : TxResult → Bool
is_timeout TxResult.timeout = true
is_timeout _ = false

abbrev pub is_unavailable : TxResult → Bool
is_unavailable TxResult.unavailable = true
is_unavailable _ = false

-- HEADER0, as it is stored in a uint8_t.
unfoldable pub header0 : ℕ → ℕ → ℕ
header0 iaddr daddr = u8 (bit_or (iaddr * 16) daddr)

-- A designated initialiser: the bytes that are not given are 0.
abbrev pub message : ℕ → CecId → List ℕ → ℕ → Message
message h id operands len = record { bytes = pad 16 0 (h ∷ opcode_of id ∷ operands); len = len }

-- The initiator and the destination of a header byte.
abbrev pub initiator_of : Message → ℕ
initiator_of m = header m / 16

abbrev pub destination_of : Message → ℕ
destination_of m = header m % 16

header0_table : all_below 256 (λ x. (header0 (x / 16) (x % 16) == (x / 16) * 16 + x % 16)) ≡ true
unfolding all_below header0
header0_table = refl

-- Two addresses share a header byte without loss.
pub header0_lem : (i d : ℕ) → i < 16 → d < 16 → header0 i d ≡ i * 16 + d
header0_lem i d hi hd = ground (
  arith,
  all_below_sound 256 (λ x. (header0 (x / 16) (x % 16) == (x / 16) * 16 + x % 16)) (i * 16 + d)
      header0_table,
  quotient,
  remainder,
)
  where
    quotient : (i * 16 + d) / 16 ≡ i
    quotient = omega arith

    remainder : (i * 16 + d) % 16 ≡ d
    remainder = omega arith

-- For two addresses below 16, the header byte gives both back.
pub header0_parts : (i d : ℕ) → i < 16 → d < 16 → (header0 i d / 16 ≡ i) × (header0 i d % 16 ≡ d)
header0_parts i d hi hd = omega (arith, header0_lem i d hi hd)
