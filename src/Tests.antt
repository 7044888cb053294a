-- ===== src/Tests.antt =====
-- Runs of the model at concrete inputs.
mod Power
mod Frames
mod Tasks
mod Checks
mod Host
mod Serial
mod Storage
mod Client
mod Lines
