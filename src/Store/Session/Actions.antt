-- ===== src/Store/Session/Actions.antt =====
-- crates/mews-store/src/sessions.rs: the operations on the effects and the transcript of a Turn, each
-- in a transaction of its own.
pub mod Laws
use mews.Prelude.{
  String, Bool, true, false, not, Option, none, some, List, [], ◌∷◌, any, find, ◌==◌, ◌&&◌, ◌||◌,
}
use mews.Protocol.Events.Journal.{EffectRequest, EventActor, EventActorKind, JournalEvent}
use mews.Protocol.Messages.{
  AssistantResponse, ReasoningProvenance, ReasoningVisibility, SessionEntry, ToolCall, ToolResult,
}
use mews.Protocol.Values.{Uid, Value}
use mews.Store.Feed.{prune_client_events}
use mews.Store.Result.{
  invalid_data, scheduled_effect_not_owned, started_effect_not_owned, tool_effect_missing,
  effect_still_open, duplicate_observation_key,
}
use mews.Store.Session.Record.{record_applied, turn_actor, observation_exists, select_session_entry}
use mews.Store.Session.Turns.{validate_active_turn}
use mews.Store.Tables.{EffectRow, is_open, is_scheduled, is_started, same_text}
use mews.Store.Tx.{
  Tx, ◌>>=◌, ◌>>◌, pure, gets, modify, require, require_some, new_id, utc_now, for_each, when,
}

pub data EffectOutcome : Type 0 where
  succeeded : Option Value → EffectOutcome
  failed uncertain : String → EffectOutcome

abbrev pub outcome_event : Uid → Uid → EffectOutcome → JournalEvent
outcome_event operation turn_id (succeeded result) =
    JournalEvent.effect_succeeded operation turn_id result
outcome_event operation turn_id (failed error) = JournalEvent.effect_failed operation turn_id error
outcome_event operation turn_id (uncertain reason) =
    JournalEvent.effect_uncertain operation turn_id reason

unfoldable pub schedule_effect_in : Uid → Uid → EffectRequest → Tx Uid
schedule_effect_in session turn_id effect = do
  operation ← new_id
  actor ← turn_actor session turn_id EventActorKind.harness
  record_applied session actor (JournalEvent.effect_scheduled operation turn_id effect) none
  pure operation

abbrev pub owned : Uid → Uid → Uid → EffectRow → Bool
owned session turn_id operation e =
    e.operation_id == operation && e.session_id == session && e.turn_id == turn_id

unfoldable pub mark_effect_started_in : Uid → Uid → Uid → Tx Unit
mark_effect_started_in session turn_id operation = do
  found ←
      gets (λ db. any (λ e. owned session turn_id operation e && is_scheduled e.status) db.effects)
  require found (invalid_data scheduled_effect_not_owned)
  actor ← turn_actor session turn_id EventActorKind.harness
  record_applied session actor (JournalEvent.effect_started operation turn_id) none

unfoldable pub finish_effect_in : Uid → Uid → Uid → EffectOutcome → Tx Unit
finish_effect_in session turn_id operation outcome = do
  found ←
      gets (λ db. any (λ e. owned session turn_id operation e && is_started e.status) db.effects)
  require found (invalid_data started_effect_not_owned)
  actor ← turn_actor session turn_id EventActorKind.host
  record_applied session actor (outcome_event operation turn_id outcome) none

unfoldable pub schedule_effect : Uid → Uid → EffectRequest → Tx Uid
schedule_effect session turn_id effect = do
  validate_active_turn session turn_id
  schedule_effect_in session turn_id effect

unfoldable pub mark_effect_started : Uid → Uid → Uid → Tx Unit
mark_effect_started session turn_id operation = do
  validate_active_turn session turn_id
  mark_effect_started_in session turn_id operation

unfoldable pub start_effect : Uid → Uid → EffectRequest → Tx Uid
start_effect session turn_id effect = do
  validate_active_turn session turn_id
  operation ← schedule_effect_in session turn_id effect
  mark_effect_started_in session turn_id operation
  pure operation

unfoldable pub finish_effect : Uid → Uid → Uid → EffectOutcome → Tx Unit
finish_effect session turn_id operation outcome = do
  validate_active_turn session turn_id
  finish_effect_in session turn_id operation outcome

abbrev pub start_tool_effect : Uid → Uid → ToolCall → Tx Uid
start_tool_effect session turn_id call = start_effect session turn_id (EffectRequest.tool_call call)

-- The effect of a tool call.
abbrev pub runs_call : Uid → Uid → String → EffectRow → Bool
runs_call session turn_id call e =
    e.session_id == session && e.turn_id == turn_id && same_text (some call) e.call_id

unfoldable pub complete_tool_execution : Uid → Uid → ToolResult → Tx Unit
complete_tool_execution session turn_id result = do
  validate_active_turn session turn_id
  found ← gets (λ db.
      find (λ e. runs_call session turn_id result.call_id e && is_started e.status) db.effects)
  row ← require_some found (invalid_data tool_effect_missing)
  actor ← turn_actor session turn_id EventActorKind.host
  record_applied session actor
      (JournalEvent.tool_execution_completed row.operation_id turn_id result) none

unfoldable pub append_tool_result : Uid → Uid → ToolResult → Tx SessionEntry
append_tool_result session turn_id result = do
  validate_active_turn session turn_id
  found ← gets (λ db. find (runs_call session turn_id result.call_id) db.effects)
  require (elim found [ none ↦ true | some e ↦ not (is_open e.status) ])
      (invalid_data effect_still_open)
  entry_id ← new_id
  actor ← turn_actor session turn_id EventActorKind.host
  record_applied session actor (JournalEvent.tool_result_recorded turn_id entry_id result) none
  select_session_entry session entry_id

unfoldable pub append_tool_requested : Uid → Uid → ToolCall → Tx SessionEntry
append_tool_requested session turn_id call = do
  validate_active_turn session turn_id
  entry_id ← new_id
  actor ← turn_actor session turn_id EventActorKind.harness
  record_applied session actor (JournalEvent.tool_call_requested turn_id entry_id call) none
  select_session_entry session entry_id

-- One of the calls of a response.
unfoldable pub request_call : Uid → Uid → EventActor → ToolCall → Tx Unit
request_call session turn_id actor call = do
  entry_id ← new_id
  record_applied session actor (JournalEvent.tool_call_requested turn_id entry_id call) none

-- The transaction of `append_assistant_response_with_tool_calls`, which prunes the feed after it.
unfoldable pub append_response_in : Uid → Uid → AssistantResponse → List ToolCall → Tx SessionEntry
append_response_in session turn_id response calls = do
  validate_active_turn session turn_id
  actor ← turn_actor session turn_id EventActorKind.harness
  entry_id ← new_id
  record_applied session actor (JournalEvent.assistant_response_recorded turn_id entry_id response)
      none
  entry ← select_session_entry session entry_id
  for_each (request_call session turn_id actor) calls
  pure entry

unfoldable pub prune_feed : Tx Unit
prune_feed = do now ← utc_now; modify (λ db. record db { feed = prune_client_events now db.feed })

unfoldable pub append_assistant_response_with_tool_calls :
    Uid → Uid → AssistantResponse → List ToolCall → Tx SessionEntry
append_assistant_response_with_tool_calls session turn_id response calls = do
  entry ← append_response_in session turn_id response calls
  prune_feed
  pure entry

unfoldable pub unless_observed : Uid → Option String → Tx Unit → Tx Unit
unless_observed session key record_it = do
  known ← gets (observation_exists session key)
  when (not known) record_it

unfoldable pub append_reasoning :
    Uid → Uid → String → ReasoningVisibility → ReasoningProvenance → Option String → Tx Unit
append_reasoning session turn_id text visibility provenance key = do
  validate_active_turn session turn_id
  unless_observed session key (do
    entry_id ← new_id
    actor ← turn_actor session turn_id EventActorKind.harness
    record_applied session actor
        (JournalEvent.reasoning_recorded turn_id entry_id text visibility provenance) key)

pub record HarnessObservationInput : Type 0 where
  pub harness_session_id : Option String
  pub kind : String
  pub content : Value
  pub idempotency_key : Option String

-- A key that stands twice among the observations.
unfoldable pub repeats_key : List HarnessObservationInput → Bool
repeats_key [] = false
repeats_key (o ∷ os) = any (λ p. same_text o.idempotency_key p.idempotency_key) os || repeats_key os

unfoldable pub append_observation : Uid → Uid → EventActor → HarnessObservationInput → Tx Unit
append_observation session turn_id actor o = unless_observed session o.idempotency_key (do
  entry_id ← new_id
  record_applied session actor
      (JournalEvent.harness_observation_recorded turn_id entry_id o.harness_session_id o.kind
        o.content)
      o.idempotency_key)

unfoldable pub append_harness_observations : Uid → Uid → List HarnessObservationInput → Tx Unit
append_harness_observations session turn_id observations = do
  require (not (repeats_key observations)) (invalid_data duplicate_observation_key)
  validate_active_turn session turn_id
  actor ← turn_actor session turn_id EventActorKind.harness
  for_each (append_observation session turn_id actor) observations
