-- ===== src/Queue.antt =====
-- crates/latte-work-server/src/message_queue.rs: the durable queue of messages that wait for an
-- Agent.
pub mod Rows
pub mod Admission
pub mod Edits
pub mod Handoff
pub mod Steps
pub mod Evolution
pub mod Invariant
pub mod Order
pub mod Places
pub mod Ranks
pub mod Reorder
pub mod Membership
pub mod Fifo
pub mod Answers
pub mod Again
pub mod Rejection
pub mod Restart
pub mod Changes
pub mod Safety
