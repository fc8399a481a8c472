-- ===== src/Outbox.antt =====
-- delivery-outbox.js: durable deliveries, claimed and retried one part at a time.
pub mod Row
pub mod Debt
pub mod Recover
pub mod Claim
pub mod Prune
pub mod Finish
pub mod Bulk
pub mod Request
pub mod Enqueue
mod Step
mod Calls
mod Histories
mod Spared
mod Writes
mod Invariants
mod InTurn
mod Order
mod Settled
mod Same
mod Keyed
mod Tests
mod EnqueueTests
