-- ===== src/Scheduler.antt =====
-- The scheduler (src/scheduler.js): who is blocked, who is selected, and who is skipped.
pub mod Blocking
pub mod Exclusive
pub mod Skips
pub mod Start
mod Tests
