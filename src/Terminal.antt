-- ===== src/Terminal.antt =====
-- crates/latte-work-server/src/terminal.rs: the terminals of a host.
pub mod Output
pub mod Stream
pub mod Follow
pub mod Process
pub mod Table
pub mod Closing
pub mod Input
pub mod Steps
pub mod Bounds
