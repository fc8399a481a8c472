-- ===== src/Approval.antt =====
-- Human approval of a dispatch (approval.js, approval-state.js, approval-binding.js).
pub mod Row
pub mod Binding
pub mod Store
pub mod Effects
pub mod Verdict
pub mod Decide
pub mod Cancel
pub mod Begin
pub mod Gate
pub mod Recover
pub mod Request
pub mod Create
pub mod Check
pub mod Frame
pub mod Calls
pub mod Keeps
pub mod Uses
pub mod Recovers
pub mod Rounds
pub mod Histories
pub mod Final
pub mod Consent
pub mod Bound
pub mod Contract
pub mod Withdrawn
pub mod Tests
