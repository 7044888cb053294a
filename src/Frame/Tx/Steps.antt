-- ===== src/Frame/Tx/Steps.antt =====
-- The steps of a transmission whose alarms ring on time and whose line nobody else pulls, except to
-- acknowledge.
use cec_controller.Common.{
  ℕ, ◌+◌, ◌<◌, ◌≡◌, Bool, true, false, not, arith, get_or, if◌then◌else◌, ltb,
}
use cec_controller.Message.{Message, TxResult}
use cec_controller.Frame.Wave.{low_time}
use cec_controller.Frame.Tx.{
  TxState, start_low, start_release, data_low, data_release, data_sample, data_end, eom_release,
  ack_low, ack_release, ack_sample, next, end, Driver, Reading, Answer, frame_tx_callback,
  bit_of_byte, is_broadcast,
}

abbrev is_ack_sample : TxState → Bool
is_ack_sample ack_sample = true
is_ack_sample _ = false

-- The line at a sample: low only where `pulled` says that a receiver acknowledges.
abbrev level : Bool → TxState → Bool
level pulled s = if is_ack_sample s then not pulled else true

abbrev pub ideal : Bool → ℕ → Driver → Reading
ideal pulled t p = record { now = t; again = t; later = t; high = level pulled p.tx.state }

-- The callback at its time.
pub call : Bool → ℕ → Driver → Answer
call pulled t p = frame_tx_callback (ideal pulled t p) p

-- All that the steps look at.
pub record Here (s : TxState) (m : Message) (deadline byte bit start due : ℕ) (driven : Bool)
    (p : Driver) : Type 0 where
  pub state : p.tx.state ≡ s
  pub whole : p.tx.message ≡ m
  pub until : p.tx.deadline ≡ deadline
  pub at_byte : p.tx.byte ≡ byte
  pub at_bit : p.tx.bit ≡ bit
  pub since : p.tx.start ≡ start
  pub planned : p.tx.due ≡ due
  pub drives : p.driven ≡ driven
  pub running : p.tx.active ≡ true
  pub good : p.tx.result ≡ TxResult.ack

module _ (pulled : Bool) (m : Message) (deadline : ℕ) where
  abbrev pub data_one : ℕ → ℕ → Bool
  data_one byte bit = bit_of_byte (get_or m.bytes byte 0) bit

  pub start_low_step :
      (t : ℕ) (p : Driver)
      → Here start_low m deadline 0 7 0 0 false p
      → t + 10000 < deadline
      → ((call pulled t p).1 ≡ 3700)
        × Here start_release m deadline 0 7 t (t + 3700) true (call pulled t p).0
  unfolding call frame_tx_callback
  start_low_step t p h d = ground arith

  pub start_release_step :
      (t : ℕ) (p : Driver)
      → Here start_release m deadline 0 7 t (t + 3700) true p
      → t + 10000 < deadline
      → ((call pulled (t + 3700) p).1 ≡ 800)
        × Here data_low m deadline 0 7 t (t + 4500) false (call pulled (t + 3700) p).0
  unfolding call frame_tx_callback
  start_release_step t p h d = ground arith

  pub data_low_step :
      (t s byte bit : ℕ) (one : Bool) (p : Driver)
      → one ≡ data_one byte bit
      → Here data_low m deadline byte bit s t false p
      → t + 10000 < deadline
      → let r = call pulled t p in
        (r.1 ≡ low_time one)
        × Here data_release m deadline byte bit t (t + low_time one) true r.0
        × (r.0.tx.one ≡ one)
  unfolding call frame_tx_callback
  data_low_step t s byte bit one p o h d = ground arith

  pub release_one_step :
      (t byte bit : ℕ) (p : Driver)
      → Here data_release m deadline byte bit t (t + 600) true p
      → p.tx.one ≡ true
      → t + 10000 < deadline
      → let r = call pulled (t + 600) p in
        (r.1 ≡ 450) × Here data_sample m deadline byte bit t (t + 1050) false r.0
  unfolding call frame_tx_callback
  release_one_step t byte bit p h o d = ground arith

  pub sample_step :
      (t byte bit : ℕ) (p : Driver)
      → Here data_sample m deadline byte bit t (t + 1050) false p
      → t + 10000 < deadline
      → let r = call pulled (t + 1050) p in
        (r.1 ≡ 1350) × Here data_end m deadline byte bit t (t + 2400) false r.0
  unfolding call frame_tx_callback
  sample_step t byte bit p h d = ground arith

  pub release_zero_step :
      (t byte bit : ℕ) (p : Driver)
      → Here data_release m deadline byte bit t (t + 1500) true p
      → p.tx.one ≡ false
      → t + 10000 < deadline
      → let r = call pulled (t + 1500) p in
        (r.1 ≡ 900) × Here data_end m deadline byte bit t (t + 2400) false r.0
  unfolding call frame_tx_callback
  release_zero_step t byte bit p h o d = ground arith

  -- Within a byte, the end of one bit is the fall of the next.
  pub data_end_step :
      (t byte bit : ℕ) (one : Bool) (p : Driver)
      → one ≡ data_one byte bit
      → Here data_end m deadline byte (bit + 1) t (t + 2400) false p
      → t + 10000 < deadline
      → let r = call pulled (t + 2400) p in
        (r.1 ≡ low_time one)
        × Here data_release m deadline byte bit (t + 2400) (t + 2400 + low_time one) true r.0
        × (r.0.tx.one ≡ one)
  unfolding call frame_tx_callback
  data_end_step t byte bit one p o h d = ground arith

  pub byte_end_step :
      (t byte : ℕ) (last : Bool) (p : Driver)
      → last ≡ not (ltb (byte + 1) m.len)
      → Here data_end m deadline byte 0 t (t + 2400) false p
      → t + 10000 < deadline
      → let r = call pulled (t + 2400) p in
        (r.1 ≡ low_time last)
        × Here eom_release m deadline (byte + 1) 0 (t + 2400) (t + 2400 + low_time last) true r.0
  unfolding call frame_tx_callback
  byte_end_step t byte last p o h d = ground arith

  pub eom_release_step :
      (t byte : ℕ) (last : Bool) (p : Driver)
      → Here eom_release m deadline byte 0 t (t + low_time last) true p
      → t + 10000 < deadline
      → let r = call pulled (t + low_time last) p in
        (r.1 + low_time last ≡ 2400) × Here ack_low m deadline byte 0 t (t + 2400) false r.0
  unfolding call frame_tx_callback
  eom_release_step t byte last p h d = ground arith

  pub ack_low_step :
      (t byte : ℕ) (p : Driver)
      → Here ack_low m deadline byte 0 t (t + 2400) false p
      → t + 10000 < deadline
      → let r = call pulled (t + 2400) p in
        (r.1 ≡ 600) × Here ack_release m deadline byte 0 (t + 2400) (t + 2400 + 600) true r.0
  unfolding call frame_tx_callback
  ack_low_step t byte p h d = ground arith

  pub ack_release_step :
      (t byte : ℕ) (p : Driver)
      → Here ack_release m deadline byte 0 t (t + 600) true p
      → t + 10000 < deadline
      → let r = call pulled (t + 600) p in
        (r.1 ≡ 450) × Here ack_sample m deadline byte 0 t (t + 1050) false r.0
  unfolding call frame_tx_callback
  ack_release_step t byte p h d = ground arith

  -- An acknowledgement is a pulled line on a directed frame, and a free one on a broadcast.
  pub ack_sample_step :
      (t byte : ℕ) (p : Driver)
      → pulled ≡ not (is_broadcast m)
      → Here ack_sample m deadline byte 0 t (t + 1050) false p
      → t + 10000 < deadline
      → let r = call pulled (t + 1050) p in
        (r.1 ≡ 1350)
        × Here (if ltb byte m.len then next else end) m deadline byte 0 t (t + 2400) false r.0
  unfolding call frame_tx_callback
  ack_sample_step t byte p a h d = ground arith

  pub next_step :
      (t byte : ℕ) (one : Bool) (p : Driver)
      → one ≡ data_one byte 7
      → Here next m deadline byte 0 t (t + 2400) false p
      → t + 10000 < deadline
      → let r = call pulled (t + 2400) p in
        (r.1 ≡ low_time one)
        × Here data_release m deadline byte 7 (t + 2400) (t + 2400 + low_time one) true r.0
        × (r.0.tx.one ≡ one)
  unfolding call frame_tx_callback
  next_step t byte one p o h d = ground arith

  pub end_step :
      (t byte : ℕ) (p : Driver)
      → Here end m deadline byte 0 t (t + 2400) false p
      → t + 10000 < deadline
      → let r = call pulled (t + 2400) p in
        (r.1 ≡ 0) × (r.0.tx.active ≡ false) × (r.0.tx.result ≡ TxResult.ack) × (r.0.driven ≡ false)
  unfolding call frame_tx_callback
  end_step t byte p h d = ground arith
