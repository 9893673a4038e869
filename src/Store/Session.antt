-- ===== src/Store/Session.antt =====
-- crates/mews-store/src/{sessions,turns}.rs: the projection of journal events on the tables of
-- Sessions, Turns and effects, and the operations that record such events.
pub mod Entries
pub mod Signals
pub mod Turns
pub mod Effects
pub mod Bindings
pub mod Transcript
pub mod Apply
pub mod Record
pub mod Actions
pub mod Finish
pub mod Recover
pub mod Sessions
pub mod Admission
pub mod Acp
pub mod Steps
pub mod Calls
pub mod Recorded
pub mod Active
pub mod Progress
pub mod Numbers
pub mod Pages
mod Examples
