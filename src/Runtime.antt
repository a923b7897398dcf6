-- ===== src/Runtime.antt =====
-- crates/latte-work-server/src/runtime.rs: the table of the open Agent sessions.
pub mod Sessions
pub mod Marking
pub mod Archived
pub mod Titles
pub mod Debounce
