-- ===== src/Store.antt =====
-- crates/latte-work-server/src/store.rs: the SQLite store of sessions, turns and events.
pub mod State
pub mod Sessions
pub mod Sources
pub mod Events
pub mod Paging
pub mod Manage
pub mod Turns
pub mod Organised
