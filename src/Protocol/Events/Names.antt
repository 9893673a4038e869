-- ===== src/Protocol/Events/Names.antt =====
-- crates/mews-protocol/src/domain/events.rs, the stable names under which types are stored.
use text.Mathlib.Text.{◌==◌}
use mews.Prelude.{◌≡◌, refl, String, Option, none, some, if◌then◌else◌}
use mews.Protocol.Events.Journal.{JournalSubjectType, EventActorKind, JournalEventType}

unfoldable pub subject_as_str : JournalSubjectType → String
subject_as_str JournalSubjectType.installation = "installation"
subject_as_str JournalSubjectType.host = "host"
subject_as_str JournalSubjectType.agent = "agent"
subject_as_str JournalSubjectType.session = "session"

unfoldable pub subject_from_str : String → Option JournalSubjectType
subject_from_str value =
    if value == "installation"
    then some JournalSubjectType.installation
    else if value == "host"
    then some JournalSubjectType.host
    else if value == "agent"
    then some JournalSubjectType.agent
    else if value == "session"
    then some JournalSubjectType.session
    else none

unfoldable pub actor_as_str : EventActorKind → String
actor_as_str EventActorKind.system = "system"
actor_as_str EventActorKind.client = "client"
actor_as_str EventActorKind.channel = "channel"
actor_as_str EventActorKind.host = "host"
actor_as_str EventActorKind.harness = "harness"

unfoldable pub actor_from_str : String → Option EventActorKind
actor_from_str value =
    if value == "system"
    then some EventActorKind.system
    else if value == "client"
    then some EventActorKind.client
    else if value == "channel"
    then some EventActorKind.channel
    else if value == "host"
    then some EventActorKind.host
    else if value == "harness"
    then some EventActorKind.harness
    else none

unfoldable pub event_as_str : JournalEventType → String
event_as_str JournalEventType.installation_created = "installation_created"
event_as_str JournalEventType.relay_changed = "relay_changed"
event_as_str JournalEventType.hub_changed = "hub_changed"
event_as_str JournalEventType.host_enrolled = "host_enrolled"
event_as_str JournalEventType.host_revoked = "host_revoked"
event_as_str JournalEventType.host_invitation_created = "host_invitation_created"
event_as_str JournalEventType.host_invitation_consumed = "host_invitation_consumed"
event_as_str JournalEventType.agent_created = "agent_created"
event_as_str JournalEventType.agent_revision_created = "agent_revision_created"
event_as_str JournalEventType.agent_renamed = "agent_renamed"
event_as_str JournalEventType.agent_archived = "agent_archived"
event_as_str JournalEventType.provider_defaults_changed = "provider_defaults_changed"
event_as_str JournalEventType.session_created = "session_created"
event_as_str JournalEventType.session_model_changed = "session_model_changed"
event_as_str JournalEventType.user_message_appended = "user_message_appended"
event_as_str JournalEventType.session_leaf_changed = "session_leaf_changed"
event_as_str JournalEventType.turn_accepted = "turn_accepted"
event_as_str JournalEventType.turn_started = "turn_started"
event_as_str JournalEventType.assistant_response_recorded = "assistant_response_recorded"
event_as_str JournalEventType.tool_call_requested = "tool_call_requested"
event_as_str JournalEventType.tool_execution_completed = "tool_execution_completed"
event_as_str JournalEventType.tool_result_recorded = "tool_result_recorded"
event_as_str JournalEventType.reasoning_recorded = "reasoning_recorded"
event_as_str JournalEventType.context_compacted = "context_compacted"
event_as_str JournalEventType.harness_observation_recorded = "harness_observation_recorded"
event_as_str JournalEventType.acp_binding_changed = "acp_binding_changed"
event_as_str JournalEventType.acp_context_dispatched = "acp_context_dispatched"
event_as_str JournalEventType.turn_completed = "turn_completed"
event_as_str JournalEventType.turn_failed = "turn_failed"
event_as_str JournalEventType.turn_cancelled = "turn_cancelled"
event_as_str JournalEventType.turn_interrupted = "turn_interrupted"
event_as_str JournalEventType.effect_scheduled = "effect_scheduled"
event_as_str JournalEventType.effect_started = "effect_started"
event_as_str JournalEventType.effect_succeeded = "effect_succeeded"
event_as_str JournalEventType.effect_failed = "effect_failed"
event_as_str JournalEventType.effect_uncertain = "effect_uncertain"

unfoldable pub event_from_str : String → Option JournalEventType
event_from_str value =
    if value == "installation_created"
    then some JournalEventType.installation_created
    else if value == "relay_changed"
    then some JournalEventType.relay_changed
    else if value == "hub_changed"
    then some JournalEventType.hub_changed
    else if value == "host_enrolled"
    then some JournalEventType.host_enrolled
    else if value == "host_revoked"
    then some JournalEventType.host_revoked
    else if value == "host_invitation_created"
    then some JournalEventType.host_invitation_created
    else if value == "host_invitation_consumed"
    then some JournalEventType.host_invitation_consumed
    else if value == "agent_created"
    then some JournalEventType.agent_created
    else if value == "agent_revision_created"
    then some JournalEventType.agent_revision_created
    else if value == "agent_renamed"
    then some JournalEventType.agent_renamed
    else if value == "agent_archived"
    then some JournalEventType.agent_archived
    else if value == "provider_defaults_changed"
    then some JournalEventType.provider_defaults_changed
    else if value == "session_created"
    then some JournalEventType.session_created
    else if value == "session_model_changed"
    then some JournalEventType.session_model_changed
    else if value == "user_message_appended"
    then some JournalEventType.user_message_appended
    else if value == "session_leaf_changed"
    then some JournalEventType.session_leaf_changed
    else if value == "turn_accepted"
    then some JournalEventType.turn_accepted
    else if value == "turn_started"
    then some JournalEventType.turn_started
    else if value == "assistant_response_recorded"
    then some JournalEventType.assistant_response_recorded
    else if value == "tool_call_requested"
    then some JournalEventType.tool_call_requested
    else if value == "tool_execution_completed"
    then some JournalEventType.tool_execution_completed
    else if value == "tool_result_recorded"
    then some JournalEventType.tool_result_recorded
    else if value == "reasoning_recorded"
    then some JournalEventType.reasoning_recorded
    else if value == "context_compacted"
    then some JournalEventType.context_compacted
    else if value == "harness_observation_recorded"
    then some JournalEventType.harness_observation_recorded
    else if value == "acp_binding_changed"
    then some JournalEventType.acp_binding_changed
    else if value == "acp_context_dispatched"
    then some JournalEventType.acp_context_dispatched
    else if value == "turn_completed"
    then some JournalEventType.turn_completed
    else if value == "turn_failed"
    then some JournalEventType.turn_failed
    else if value == "turn_cancelled"
    then some JournalEventType.turn_cancelled
    else if value == "turn_interrupted"
    then some JournalEventType.turn_interrupted
    else if value == "effect_scheduled"
    then some JournalEventType.effect_scheduled
    else if value == "effect_started"
    then some JournalEventType.effect_started
    else if value == "effect_succeeded"
    then some JournalEventType.effect_succeeded
    else if value == "effect_failed"
    then some JournalEventType.effect_failed
    else if value == "effect_uncertain"
    then some JournalEventType.effect_uncertain
    else none

pub subject_from_str-as_str :
    (t : JournalSubjectType) → subject_from_str (subject_as_str t) ≡ some t
unfolding subject_from_str subject_as_str
subject_from_str-as_str JournalSubjectType.installation = refl
subject_from_str-as_str _ = refl

pub event_from_str-as_str : (t : JournalEventType) → event_from_str (event_as_str t) ≡ some t
unfolding event_from_str event_as_str
event_from_str-as_str JournalEventType.installation_created = refl
event_from_str-as_str _ = refl
