-- ===== src/Outbox.antt =====
-- src/outbox/mod.rs: the queue of jobs, their retry policy and the jobs themselves.
pub mod Schedule
pub mod Backoff
pub mod Claims
pub mod Queue
pub mod Jobs
pub mod Submitted
