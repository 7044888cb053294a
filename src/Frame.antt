-- ===== src/Frame.antt =====
-- The CEC line driver (src/cec-frame.c): the receiver's interrupt handler and the transmitter's
-- alarm callback, each a state machine over the line.
pub mod Wave
pub mod Rx
pub mod Tx
pub mod RoundTrip
pub mod Send
use cec_controller.Common.{ℕ, ◌+◌, Bool, ◌&&◌, leb, u32}

-- cec_frame_stats_t.
pub record Stats : Type 0 where
  pub rx_frames : ℕ
  pub tx_frames : ℕ
  pub rx_abort_frames : ℕ
  pub tx_noack_frames : ℕ
  pub tx_timeout_frames : ℕ
  pub tx_idle_timeout_frames : ℕ
  pub tx_alarm_timeout_frames : ℕ
  pub tx_arbitration_frames : ℕ
  pub tx_bus_error_frames : ℕ

abbrev pub no_stats : Stats
no_stats = record {
  rx_frames = 0;
  tx_frames = 0;
  rx_abort_frames = 0;
  tx_noack_frames = 0;
  tx_timeout_frames = 0;
  tx_idle_timeout_frames = 0;
  tx_alarm_timeout_frames = 0;
  tx_arbitration_frames = 0;
  tx_bus_error_frames = 0;
}

-- A counter of uint32_t.
abbrev pub bump : ℕ → ℕ
bump n = u32 (n + 1)

abbrev pub in_range : ℕ → ℕ → ℕ → Bool
in_range n minimum maximum = leb minimum n && leb n maximum
