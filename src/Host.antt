-- ===== src/Host.antt =====
-- The command that runs on the host (host/src).
pub mod Reply
pub mod Checks
pub mod Protocol
pub mod Reader
pub mod Agreement
pub mod Address
pub mod Edid
pub mod Files
pub mod Options
pub mod Discovery
pub mod Cache
pub mod Resolve
pub mod Port
pub mod Run
pub mod Main
pub mod Wire
pub mod Print
