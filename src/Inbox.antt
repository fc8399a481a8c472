-- ===== src/Inbox.antt =====
-- The message queue between agents (messages.js).
pub mod Row
pub mod Claim
pub mod Recover
pub mod Send
pub mod Ops
pub mod Calls
pub mod Writes
pub mod Every
pub mod Returns
pub mod Present
pub mod Exclusive
pub mod Consumed
pub mod Freed
pub mod Limit
pub mod Release
pub mod Tests
