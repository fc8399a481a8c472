-- ===== src/Dispatch.antt =====
-- dispatch-queue.js: the durable queue of job invocations.
pub mod Row
pub mod Claim
pub mod Queue
pub mod Enqueue
pub mod Calls
pub mod Histories
pub mod Exclusive
pub mod Due
pub mod Sweep
pub mod Idempotent
mod Tests
