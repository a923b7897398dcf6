-- ===== src/Protocol.antt =====
-- crates/latte-work-protocol: the wire contract between the desktop and the hosts. Each file
-- below transcribes a part of it, struct by struct and enum by enum.
pub mod Values
pub mod Providers
pub mod Changes
pub mod Events
pub mod Requests
pub mod Responses
