-- ===== src/Run.antt =====
-- run-state.js: the runs table, its fenced updates and the terminal transition.
pub mod Row
pub mod Fence
pub mod Ops
pub mod Terminal
pub mod Later
pub mod Calls
pub mod Histories
pub mod Cas
pub mod Stale
mod Tests
