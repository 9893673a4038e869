-- ===== src/Agent.antt =====
-- crates/mews-agent: the model and tool loop of one Turn.
pub mod Model
pub mod Budget
pub mod Calls
