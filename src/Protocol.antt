-- ===== src/Protocol.antt =====
-- crates/mews-protocol/src/domain: the data that the Hub, its Hosts and its clients share.
pub mod Values
pub mod Messages
pub mod Turns
pub mod Events
