-- ===== src/Protocol/Events/Journal.antt =====
-- crates/mews-protocol/src/domain/events.rs, the journal: entries, events, their types and subjects.
use mews.Prelude.{ℕ, String, Option, none, some}
use mews.Protocol.Messages.{
  MessageContent, MessageSource, HarnessProvenance, ToolCall, ToolResult, AssistantResponse,
  ReasoningVisibility, ReasoningProvenance, SourceKind,
}
use mews.Protocol.Turns.{
  Installation, Host, Agent, AgentRevision, Session, ProviderDefaults, AcpSessionBinding,
  AcpInstructionChannel,
}
use mews.Protocol.Values.{Uid, Time, Value, IdText}

pub data JournalSubjectType : Type 0 where
  installation host agent session : JournalSubjectType

pub data EventActorKind : Type 0 where
  system client channel host harness : EventActorKind

pub record EventActor : Type 0 where
  pub kind : EventActorKind
  pub id : Option String

-- EventActor::system
abbrev pub system_actor : EventActor
system_actor = record { kind = EventActorKind.system; id = none }

actor_kind : SourceKind → EventActorKind
actor_kind SourceKind.client = EventActorKind.client
actor_kind SourceKind.channel = EventActorKind.channel
actor_kind SourceKind.harness = EventActorKind.harness
actor_kind SourceKind.host = EventActorKind.host

unfoldable pub from_source : MessageSource → EventActor
unfolding actor_kind
from_source source = record { kind = actor_kind source.kind; id = some source.id }

pub data JournalEventType : Type 0 where
  installation_created relay_changed hub_changed host_enrolled : JournalEventType
  host_revoked host_invitation_created host_invitation_consumed : JournalEventType
  agent_created agent_revision_created agent_renamed agent_archived : JournalEventType
  provider_defaults_changed session_created session_model_changed : JournalEventType
  user_message_appended session_leaf_changed turn_accepted turn_started : JournalEventType
  assistant_response_recorded tool_call_requested : JournalEventType
  tool_execution_completed tool_result_recorded reasoning_recorded : JournalEventType
  context_compacted harness_observation_recorded acp_binding_changed : JournalEventType
  acp_context_dispatched turn_completed turn_failed turn_cancelled : JournalEventType
  turn_interrupted effect_scheduled effect_started effect_succeeded : JournalEventType
  effect_failed effect_uncertain : JournalEventType

pub data EffectRequest : Type 0 where
  provider_call : String → String → EffectRequest
  tool_call : ToolCall → EffectRequest
  acp_prompt : Uid → String → EffectRequest
  lifecycle_hook : String → EffectRequest

-- The fields stand in the source's order.
pub data JournalEvent : Type 0 where
  installation_created : Installation → JournalEvent
  relay_changed : Option String → Option Uid → JournalEvent
  hub_changed : Uid → ℕ → JournalEvent
  host_enrolled : Host → JournalEvent
  host_revoked : Uid → JournalEvent
  host_invitation_created : Uid → Time → String → JournalEvent
  host_invitation_consumed : Uid → Uid → JournalEvent
  agent_created : Agent → AgentRevision → JournalEvent
  agent_revision_created : AgentRevision → JournalEvent
  agent_renamed : String → JournalEvent
  agent_archived : JournalEvent
  provider_defaults_changed : ProviderDefaults → JournalEvent
  session_created : Session → JournalEvent
  session_model_changed : Option String → JournalEvent
  user_message_appended : Uid → MessageContent → Value → MessageSource → JournalEvent
  session_leaf_changed : Option Uid → JournalEvent
  turn_accepted : Uid → ℕ → Uid → MessageContent → Value → MessageSource → JournalEvent
  turn_started : Uid → HarnessProvenance → JournalEvent
  assistant_response_recorded : Uid → Uid → AssistantResponse → JournalEvent
  tool_call_requested : Uid → Uid → ToolCall → JournalEvent
  tool_execution_completed : Uid → Uid → ToolResult → JournalEvent
  tool_result_recorded : Uid → Uid → ToolResult → JournalEvent
  reasoning_recorded : Uid → Uid → String → ReasoningVisibility → ReasoningProvenance → JournalEvent
  context_compacted : Uid → String → Uid → ℕ → JournalEvent
  harness_observation_recorded : Uid → Uid → Option String → String → Value → JournalEvent
  acp_binding_changed : AcpSessionBinding → JournalEvent
  acp_context_dispatched : Uid → String → ℕ → String → AcpInstructionChannel → JournalEvent
  turn_completed : Uid → Option String → JournalEvent
  turn_failed : Uid → String → JournalEvent
  turn_cancelled : Uid → JournalEvent
  turn_interrupted : Uid → String → JournalEvent
  effect_scheduled : Uid → Uid → EffectRequest → JournalEvent
  effect_started : Uid → Uid → JournalEvent
  effect_succeeded : Uid → Uid → Option Value → JournalEvent
  effect_failed : Uid → Uid → String → JournalEvent
  effect_uncertain : Uid → Uid → String → JournalEvent

pub record JournalSubject : Type 0 where
  pub kind : JournalSubjectType
  pub id : IdText

pub record JournalEntry : Type 0 where
  pub id : Uid
  pub position : ℕ
  pub subject : JournalSubject
  pub event_type : JournalEventType
  pub recorded_at : Time
  pub actor : EventActor
  pub command_id : Option String
  pub correlation_id : Option String
  pub payload : JournalEvent

unfoldable pub subject_type : JournalEvent → JournalSubjectType
subject_type (installation_created _) = JournalSubjectType.installation
subject_type (relay_changed _ _) = JournalSubjectType.installation
subject_type (hub_changed _ _) = JournalSubjectType.installation
subject_type (host_enrolled _) = JournalSubjectType.host
subject_type (host_revoked _) = JournalSubjectType.host
subject_type (host_invitation_created _ _ _) = JournalSubjectType.installation
subject_type (host_invitation_consumed _ _) = JournalSubjectType.installation
subject_type (agent_created _ _) = JournalSubjectType.agent
subject_type (agent_revision_created _) = JournalSubjectType.agent
subject_type (agent_renamed _) = JournalSubjectType.agent
subject_type agent_archived = JournalSubjectType.agent
subject_type (provider_defaults_changed _) = JournalSubjectType.installation
subject_type (session_created _) = JournalSubjectType.session
subject_type (session_model_changed _) = JournalSubjectType.session
subject_type (user_message_appended _ _ _ _) = JournalSubjectType.session
subject_type (session_leaf_changed _) = JournalSubjectType.session
subject_type (turn_accepted _ _ _ _ _ _) = JournalSubjectType.session
subject_type (turn_started _ _) = JournalSubjectType.session
subject_type (assistant_response_recorded _ _ _) = JournalSubjectType.session
subject_type (tool_call_requested _ _ _) = JournalSubjectType.session
subject_type (tool_execution_completed _ _ _) = JournalSubjectType.session
subject_type (tool_result_recorded _ _ _) = JournalSubjectType.session
subject_type (reasoning_recorded _ _ _ _ _) = JournalSubjectType.session
subject_type (context_compacted _ _ _ _) = JournalSubjectType.session
subject_type (harness_observation_recorded _ _ _ _ _) = JournalSubjectType.session
subject_type (acp_binding_changed _) = JournalSubjectType.session
subject_type (acp_context_dispatched _ _ _ _ _) = JournalSubjectType.session
subject_type (turn_completed _ _) = JournalSubjectType.session
subject_type (turn_failed _ _) = JournalSubjectType.session
subject_type (turn_cancelled _) = JournalSubjectType.session
subject_type (turn_interrupted _ _) = JournalSubjectType.session
subject_type (effect_scheduled _ _ _) = JournalSubjectType.session
subject_type (effect_started _ _) = JournalSubjectType.session
subject_type (effect_succeeded _ _ _) = JournalSubjectType.session
subject_type (effect_failed _ _ _) = JournalSubjectType.session
subject_type (effect_uncertain _ _ _) = JournalSubjectType.session

unfoldable pub event_type : JournalEvent → JournalEventType
event_type (installation_created _) = JournalEventType.installation_created
event_type (relay_changed _ _) = JournalEventType.relay_changed
event_type (hub_changed _ _) = JournalEventType.hub_changed
event_type (host_enrolled _) = JournalEventType.host_enrolled
event_type (host_revoked _) = JournalEventType.host_revoked
event_type (host_invitation_created _ _ _) = JournalEventType.host_invitation_created
event_type (host_invitation_consumed _ _) = JournalEventType.host_invitation_consumed
event_type (agent_created _ _) = JournalEventType.agent_created
event_type (agent_revision_created _) = JournalEventType.agent_revision_created
event_type (agent_renamed _) = JournalEventType.agent_renamed
event_type agent_archived = JournalEventType.agent_archived
event_type (provider_defaults_changed _) = JournalEventType.provider_defaults_changed
event_type (session_created _) = JournalEventType.session_created
event_type (session_model_changed _) = JournalEventType.session_model_changed
event_type (user_message_appended _ _ _ _) = JournalEventType.user_message_appended
event_type (session_leaf_changed _) = JournalEventType.session_leaf_changed
event_type (turn_accepted _ _ _ _ _ _) = JournalEventType.turn_accepted
event_type (turn_started _ _) = JournalEventType.turn_started
event_type (assistant_response_recorded _ _ _) = JournalEventType.assistant_response_recorded
event_type (tool_call_requested _ _ _) = JournalEventType.tool_call_requested
event_type (tool_execution_completed _ _ _) = JournalEventType.tool_execution_completed
event_type (tool_result_recorded _ _ _) = JournalEventType.tool_result_recorded
event_type (reasoning_recorded _ _ _ _ _) = JournalEventType.reasoning_recorded
event_type (context_compacted _ _ _ _) = JournalEventType.context_compacted
event_type (harness_observation_recorded _ _ _ _ _) = JournalEventType.harness_observation_recorded
event_type (acp_binding_changed _) = JournalEventType.acp_binding_changed
event_type (acp_context_dispatched _ _ _ _ _) = JournalEventType.acp_context_dispatched
event_type (turn_completed _ _) = JournalEventType.turn_completed
event_type (turn_failed _ _) = JournalEventType.turn_failed
event_type (turn_cancelled _) = JournalEventType.turn_cancelled
event_type (turn_interrupted _ _) = JournalEventType.turn_interrupted
event_type (effect_scheduled _ _ _) = JournalEventType.effect_scheduled
event_type (effect_started _ _) = JournalEventType.effect_started
event_type (effect_succeeded _ _ _) = JournalEventType.effect_succeeded
event_type (effect_failed _ _ _) = JournalEventType.effect_failed
event_type (effect_uncertain _ _ _) = JournalEventType.effect_uncertain
