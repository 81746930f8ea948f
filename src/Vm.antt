-- ===== src/Vm.antt =====
-- The Virtual Machine: src/vm.
pub mod State
pub mod Program
pub mod Cpu
pub mod Channel
pub mod Image
pub mod Machine
mod Tests
