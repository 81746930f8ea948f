-- ===== src/Rm.antt =====
-- The Real Machine: src/rm and the headers that it includes.
pub mod State
pub mod Memory
pub mod Decode
pub mod Execute
pub mod Cycle
pub mod Timer
pub mod Disk
pub mod Channel
pub mod Io
mod Tests
