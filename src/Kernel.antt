-- ===== src/Kernel.antt =====
-- The kernel: src/kernel.
pub mod Resource
pub mod Files
pub mod ProgramImage
pub mod Swapper
pub mod Mmu
pub mod Loader
pub mod Process
pub mod System
pub mod Scheduler
pub mod Context
pub mod IoHandler
pub mod Interrupts
pub mod Jobs
pub mod Cycle
pub mod Invariant
mod Tests
mod SystemTests
mod IoTests
mod JobTests
