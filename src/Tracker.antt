-- ===== src/Tracker.antt =====
-- task-tracker.js: groups of sub-agents, watched by a dead-man's switch.
pub mod Row
pub mod Ops
pub mod Switch
mod Verdict
mod Switched
mod Alarm
mod Settled
mod Tests
