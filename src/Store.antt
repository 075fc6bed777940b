-- ===== src/Store.antt =====
-- src/deposit/store.rs.
pub mod Db
pub mod Record
pub mod Transitions
pub mod Create
pub mod Rows
pub mod Recorded
pub mod Keeps
pub mod Evolution
pub mod Numbering
pub mod Allowed
pub mod Closed
pub mod Replay
pub mod Effects
pub mod Notified
pub mod Once
pub mod Retried
pub mod Inserted
