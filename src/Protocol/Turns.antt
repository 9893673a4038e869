-- ===== src/Protocol/Turns.antt =====
-- crates/mews-protocol/src/domain/{turns,sessions,agents,installation}.rs: the records that journal
-- events carry.
use mews.Prelude.{ℕ, String, Bool, Option, List}
use mews.Protocol.Events.Client.{ToolActivity}
use mews.Protocol.Messages.{ReasoningVisibility}
use mews.Protocol.Values.{Uid, Time, Value}

pub data TurnStatus : Type 0 where
  running completed failed cancelled : TurnStatus

pub data ReasoningEffort : Type 0 where
  none auto minimal low medium high x_high max : ReasoningEffort

pub record ProviderDefaults : Type 0 where
  pub model : Option String
  pub reasoning : Option ReasoningEffort

pub record ToolDefinition : Type 0 where
  pub name : String
  pub description : String
  pub schema : Value
  pub agent_id : Option Uid

pub record ToolCatalogSnapshot : Type 0 where
  pub generation : ℕ
  pub tools : List ToolDefinition

pub record Installation : Type 0 where
  pub id : Uid
  pub public_key : String
  pub relay_url : Option String
  pub hub_host_id : Uid
  pub generation : ℕ
  pub created_at : Time

pub record Host : Type 0 where
  pub id : Uid
  pub name : String
  pub public_key : String
  pub noise_public_key : String
  pub relay_url : Option String
  pub created_at : Time

pub record Agent : Type 0 where
  pub id : Uid
  pub slug : String
  pub current_revision : ℕ
  pub archived : Bool
  pub created_at : Time

pub record AgentRevision : Type 0 where
  pub agent_id : Uid
  pub revision : ℕ
  pub soul : String
  pub config_toml : String
  pub content_hash : String
  pub author_host_id : Uid
  pub created_at : Time

pub record Session : Type 0 where
  pub id : Uid
  pub agent_id : Uid
  pub host_id : Uid
  pub working_directory : String
  pub model_override : Option String
  pub leaf_entry_id : Option Uid
  pub created_at : Time

pub data AcpInstructionChannel : Type 0 where
  codex_developer claude_system_append first_prompt : AcpInstructionChannel

pub data AcpReplacementReason : Type 0 where
  resource_not_found harness_changed harness_definition_changed : AcpReplacementReason
  instruction_context_changed history_diverged context_not_dispatched : AcpReplacementReason

pub record AcpSessionBinding : Type 0 where
  pub session_id : Uid
  pub host_id : Uid
  pub harness : String
  pub harness_definition_hash : String
  pub acp_session_id : String
  pub context_version : ℕ
  pub context_hash : String
  pub context_channel : AcpInstructionChannel
  pub context_text : String
  pub context_dispatched : Bool
  pub created_at : Time
  pub replaced_at : Option Time
  pub last_replacement_reason : Option AcpReplacementReason

pub record Turn : Type 0 where
  pub id : Uid
  pub session_id : Uid
  pub agent_revision : ℕ
  pub harness : Option String
  pub harness_definition_hash : Option String
  pub harness_version : Option String
  pub status : TurnStatus
  pub error : Option String
  pub created_at : Time
  pub completed_at : Option Time

pub data AcpBindingTransition : Type 0 where
  new : AcpBindingTransition
  resume : String → AcpBindingTransition
  replace : AcpReplacementReason → AcpBindingTransition

-- crates/mews-protocol/src/domain/messages.rs
pub data AcpObservation : Type 0 where
  assistant_delta : String → Option String → Value → AcpObservation
  completed_reasoning : String → Option String → ReasoningVisibility → AcpObservation
  context_dispatched : ℕ → String → AcpInstructionChannel → String → AcpObservation
  binding_changed : AcpBindingTransition → AcpObservation
  provider_update : Value → AcpObservation
  tool_activity : ToolActivity → AcpObservation
  hook_outcome : String → Bool → Option String → Option String → Option String → AcpObservation
