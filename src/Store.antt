-- ===== src/Store.antt =====
-- crates/mews-store: the durable tables of the Hub and the transactions over them.
pub mod Result
pub mod Feed
pub mod Tables
pub mod Tx
pub mod Journal
pub mod Session
