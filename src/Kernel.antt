-- ===== src/Kernel.antt =====
-- The kernel of rtos/src, a module for each part of it.
pub mod State
pub mod Scheduler
pub mod Preempt
pub mod Sync
pub mod Task
pub mod System
mod Tests
