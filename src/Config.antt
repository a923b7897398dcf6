-- ===== src/Config.antt =====
-- crates/latte-work-config: the model providers that the application keeps, and which Agent of which
-- host uses which of them.
pub mod State
pub mod Validation
pub mod Bindings
pub mod Drafts
pub mod Steps
pub mod Resolved
pub mod History
pub mod Bound
pub mod Unbound
pub mod Deletion
pub mod Credentials
