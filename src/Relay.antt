-- ===== src/Relay.antt =====
-- crates/mews-relay/src/lib.rs: the relay that authenticates peers and forwards opaque frames.
pub mod Frame
pub mod Admission
pub mod Router
pub mod Lists
pub mod Routed
pub mod Delivery
pub mod Replace
mod Examples
