-- ===== src/Client.antt =====
-- crates/latte-work-client/src/lib.rs: the connection of an App to a server, over the stream of a child
-- process, and the command that starts one on another host.
pub mod Transport
pub mod Silence
pub mod Shell
pub mod Words
pub mod Commands
pub mod Ssh
