-- ===== src/Job.antt =====
-- jobs.js: the rows of `jobs`, and the chains of parents that they form.
pub mod Row
mod Chain
mod Acyclic
mod Linked
mod Tests
