-- ===== src/Protocol/Events.antt =====
-- crates/mews-protocol/src/domain/events.rs: journal entries and client events.
pub mod Journal
pub mod Names
pub mod Validate
pub mod Client
pub mod Laws
mod Examples
