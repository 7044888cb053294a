-- ===== src/Log/Laws.antt =====
-- No line of a frame is lost or cut (src/cec-log.c, cec_log_frame).
use mathlib.Core.List.{append_assoc}
use cec_controller.Common.{
  ℕ, zero, suc, ◌+◌, ◌-◌, ◌*◌, ◌≤◌, ◌<◌, ◌≡◌, refl, sym, ap, ◌∙◌, Bool, true, false, List, [], ◌∷◌,
  ◌++◌, Option, some, ltb, if◌then◌else◌, length, length-append, take, replicate, get_or, Text,
  codes, length-hex_onto, decimal_onto, length-decimal_onto, Bool-cases, inl, inr, arith, le→leb,
  lt→ltb,
}
use cec_controller.CecId.{CecId, cec_id}
use cec_controller.Message.{Message, opcode}
use cec_controller.Validate.{cec_message_valid}
use cec_controller.Validate.Laws.{cec_message_valid_iff}
use cec_controller.Host.Protocol.Tokens.{append_nil}
use cec_controller.Log.{
  Log, cec_message, cec_log_vsubmitf, raw_size, print_at, byte_text, raw_from, known_name,
  frame_name, padded, frame_line, cec_log_frame,
}

-- The bytes in hexadecimal digits, with colons between them, without a limit of size.
unfoldable pub bytes_text : Message → ℕ → ℕ → Text
bytes_text m zero i = []
bytes_text m (suc count) i = byte_text i (get_or m.bytes i 0) ++ bytes_text m count (i + 1)

length-byte_text : (i b : ℕ) → (length (byte_text i b) ≤ 3) × (2 ≤ length (byte_text i b))
unfolding byte_text
length-byte_text zero b = omega (arith, length-hex_onto 2 b [])
length-byte_text (suc i) b = omega (arith, length-hex_onto 2 b [])

length-bytes_text : (m : Message) (count i : ℕ) → length (bytes_text m count i) ≤ 3 * count
unfolding bytes_text
length-bytes_text m zero i = omega arith
length-bytes_text m (suc count) i = omega (
  arith,
  length-append (byte_text i (get_or m.bytes i 0)) (bytes_text m count (i + 1)),
  length-byte_text i (get_or m.bytes i 0),
  length-bytes_text m count (i + 1),
)

take-all : (n : ℕ) (xs : Text) → length xs ≤ n → take n xs ≡ xs
take-all zero [] h = refl
take-all zero (x ∷ xs) h = absurd (omega arith)
take-all (suc n) [] h = refl
take-all (suc n) (x ∷ xs) h = ap (◌∷◌ x) (take-all n xs (omega arith))

print_at-whole :
    (used : ℕ) (piece raw : Text)
    → used + length piece ≤ 48
    → print_at used piece raw ≡ some (raw ++ piece)
unfolding print_at
print_at-whole used piece raw h =
    rw (le→leb used raw_size (omega arith), take-all (raw_size - used - 1) piece (omega arith)) refl

raw_from-bytes_text :
    (m : Message) (count i used : ℕ) (raw : Text)
    → used + 3 * count ≤ 48
    → raw_from m count i used raw ≡ some (raw ++ bytes_text m count i)
unfolding raw_from bytes_text
raw_from-bytes_text m zero i used raw h = ap some (sym (append_nil raw))
raw_from-bytes_text m (suc count) i used raw h =
    rw (print_at-whole used piece raw (omega (arith, length-byte_text i (get_or m.bytes i 0)))) (
      raw_from-bytes_text m count (i + 1) (used + length piece) (raw ++ piece)
        (omega (arith, length-byte_text i (get_or m.bytes i 0)))
      ∙ ap some (append_assoc raw piece (bytes_text m count (i + 1))))
  where
    piece : Text
    piece = byte_text i (get_or m.bytes i 0)

length-known_name : (id : Option CecId) → length (known_name id) ≤ 25
unfolding cec_message
length-known_name id = ground arith

length-frame_name : (m : Message) → length (frame_name m) ≤ 25
unfolding frame_name
length-frame_name m = elim (Bool-cases (ltb 1 m.len)) [
  | inl long ↦ rw long (length-known_name (cec_id (opcode m)))
  | inr poll ↦ rw poll (omega arith)
]

length-replicate : (n c : ℕ) → length (replicate n c) ≡ n
length-replicate zero c = refl
length-replicate (suc n) c = ap suc (length-replicate n c)

length-padded : (n : ℕ) → length (padded n) ≤ 20
unfolding padded
length-padded n = omega (
  arith,
  length-append (replicate (10 - length (decimal_onto 20 n [])) 32) (decimal_onto 20 n []),
  length-replicate (10 - length (decimal_onto 20 n [])) 32,
  length-decimal_onto 20 n [],
)

if-length :
    (b : Bool) (x y : Text) (n : ℕ) → length x ≤ n → length y ≤ n → length (if b then x else y) ≤ n
if-length true x y n p q = p
if-length false x y n p q = q

length-front :
    (front back : Text) (n k : ℕ)
    → length front ≤ n
    → length back ≤ k
    → length (front ++ back) ≤ n + k
length-front front back n k p q = omega (arith, length-append front back)

length-frame_line :
    (uptime : ℕ) (recv : Bool) (m : Message) (ack : Bool) (raw : Text)
    → length raw ≤ 48
    → length (frame_line uptime recv m ack raw) < 128
unfolding frame_line
length-frame_line uptime recv m ack raw h = omega (arith, all)
  where
    all :
        length (frame_line uptime recv m ack raw)
        ≤ 1 + (20 + (2 + (2 + (1 + (48 + (1 + (25 + (4 + 2))))))))
    all = length-front (codes "[") _ 1 _ (omega arith) (
        length-front (padded uptime) _ 20 _ (length-padded uptime) (
          length-front (codes "] ") _ 2 _ (omega arith) (
            length-front (if recv then codes "RX" else codes "TX") _ 2 _
              (if-length recv _ _ 2 (omega arith) (omega arith))
              (length-front (codes " ") _ 1 _ (omega arith) (
                length-front raw _ 48 _ h (
                  length-front (codes " ") _ 1 _ (omega arith) (
                    length-front (frame_name m) _ 25 _ (length-frame_name m) (
                      length-front (if ack then codes " ACK" else []) (codes "\r\n") 4 2
                        (if-length ack _ _ 4 (omega arith) (omega arith)) (omega arith)))))))))

submitted :
    (send : Text → List Text → List Text) (text : Text) (log : Log)
    → length text < 128
    → log.enabled ≡ true
    → cec_log_vsubmitf send text log ≡ record log { queue = send text log.queue }
unfolding cec_log_vsubmitf
submitted send text log h on = rw (cec_log_vsubmitf, on, lt→ltb _ _ h) refl

raw_from-whole : (m : Message) → m.len ≤ 16 → raw_from m m.len 0 0 [] ≡ some (bytes_text m m.len 0)
raw_from-whole m h = raw_from-bytes_text m m.len 0 0 [] (omega arith)

module _ (send : Text → List Text → List Text) (uptime : ℕ) (recv : Bool) (m : Message)
    (ack : Bool) where
  line : Text
  line = frame_line uptime recv m ack (bytes_text m m.len 0)

  whole_at :
      (enabled : Bool) (queue : List Text)
      → cec_message_valid m ≡ true
      → m.len ≤ 16
      → cec_log_frame send uptime recv m ack (record { enabled = enabled; queue = queue })
        ≡ some (record { enabled = enabled; queue = if enabled then send line queue else queue })
  unfolding cec_log_frame line
  whole_at false queue valid short = refl
  whole_at true queue valid short =
      rw (valid, raw_from-whole m short)
        (ap some (
          submitted send line (record { enabled = true; queue = queue })
            (length-frame_line uptime recv m ack (bytes_text m m.len 0)
              (omega (arith, length-bytes_text m m.len 0)))
            refl))

-- The frame of a valid message, whatever its bytes and the time: nothing is written outside of the
-- buffer of the digits, and while the log is on, a line with all bytes of the message is handed to the
-- message buffer, which is never dropped for its length; while it is off, nothing happens.
pub cec_log_frame-whole :
    (send : Text → List Text → List Text) (uptime : ℕ) (recv : Bool) (m : Message) (ack : Bool)
    (log : Log)
    → cec_message_valid m ≡ true
    → cec_log_frame send uptime recv m ack log
      ≡ some (record log {
        queue =
            if log.enabled
            then send (frame_line uptime recv m ack (bytes_text m m.len 0)) log.queue
            else log.queue;
      })
unfolding line
cec_log_frame-whole send uptime recv m ack log valid =
    whole_at send uptime recv m ack log.enabled log.queue valid
      (ground (arith, (cec_message_valid_iff m).0 valid))
