-- ===== src/Proc.antt =====
-- Tasks: VinixOS/kernel/src/kernel/scheduler, sync and proc.
pub mod Task
pub mod Sched
pub mod Sleep
pub mod Wait
mod Tests
