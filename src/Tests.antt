-- ===== src/Tests.antt =====
-- Concrete inputs: tests of the definitions, and each theorem at an input where it applies.
mod Queue
mod Turns
mod Paging
mod Config
mod Manage
mod Questions
mod Sample
mod Terminal
mod Attachments
mod Runtime
mod Lifecycle
mod Client
