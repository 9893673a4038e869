-- ===== src/Store/Session/Apply.antt =====
-- crates/mews-store/src/sessions.rs, apply_session_journal_entry: what each event of a Session
-- changes in the tables.
use mews.Prelude.{
  String, Bool, true, false, not, Option, none, some, [], ◌∷◌, ◌++◌, any, ◌==◌, ◌&&◌, count,
}
use mews.Protocol.Events.Client.{ClientEventKind}
use mews.Protocol.Events.Journal.{JournalEntry, JournalEvent}
use mews.Protocol.Messages.{SessionEntryPayload}
use mews.Protocol.Turns.{Session, TurnStatus}
use mews.Protocol.Values.{Uid}
use mews.Store.Journal.Record.{journal_session_id}
use mews.Store.Result.{database, unique_violation, foreign_key_violation, not_found, Kind}
use mews.Store.Session.Bindings.{change_binding, dispatch_context}
use mews.Store.Session.Effects.{
  Closing, outcome_of, schedule_effect_row, set_effect_started, set_effect_terminal,
}
use mews.Store.Session.Entries.{append_session_entry, is_session, update_session, with_leaf}
use mews.Store.Session.Transcript.{record_response, record_tool_call, record_tool_result}
use mews.Store.Session.Turns.{accept_turn, project_turn_terminal, start_turn}
use mews.Store.Tables.{Db}
use mews.Store.Tx.{Tx, ◌>>=◌, ◌>>◌, pure, gets, modify, require}

unfoldable pub add_session : Session → Db → Db
add_session s db = record db {
  sessions = db.sessions ++ record s { model_override = none; leaf_entry_id = none } ∷ [];
}

-- INSERT INTO sessions: the columns of the model and of the leaf are left to be NULL.
unfoldable pub create_session_row : Session → Tx Unit
create_session_row s = do
  taken ← gets (is_session s.id)
  require (not taken) (database unique_violation)
  known ← gets (λ db. any (λ a. a.id == s.agent_id) db.agents && any (λ h. h == s.host_id) db.hosts)
  require known (database foreign_key_violation)
  modify (add_session s)

-- An UPDATE of a Session that has to find it.
unfoldable pub change_session : Uid → (Session → Session) → Tx Unit
change_session session f = do
  changed ← gets (λ db. count (λ s. s.id == session) db.sessions)
  modify (update_session session f)
  require (changed == 1) (not_found Kind.session session)

abbrev pub with_model : Option String → Session → Session
with_model model s = record s { model_override = model }

-- An entry that no client is told of.
unfoldable pub append_quietly : JournalEntry → Uid → SessionEntryPayload → String → Bool → Tx Unit
append_quietly event entry_id payload kind contextual = do
  entry ← append_session_entry event entry_id payload kind contextual
  pure tt

unfoldable pub apply_event : JournalEntry → Uid → JournalEvent → Tx Unit
apply_event event session (JournalEvent.session_created s) = create_session_row s
apply_event event session (JournalEvent.session_model_changed model) =
    change_session session (with_model model)
apply_event event session (JournalEvent.user_message_appended entry content metadata source) =
    append_quietly event entry (SessionEntryPayload.user_message content metadata source)
      "user_message" true
apply_event event session (JournalEvent.session_leaf_changed leaf) =
    change_session session (with_leaf leaf)
apply_event event session (JournalEvent.turn_accepted turn revision entry content metadata source) =
    accept_turn event session turn revision entry content metadata source
apply_event event session (JournalEvent.turn_started turn harness) =
    start_turn event session turn harness
apply_event event session (JournalEvent.assistant_response_recorded turn entry response) =
    record_response event turn entry response
apply_event event session (JournalEvent.tool_call_requested turn entry call) =
    record_tool_call event turn entry call
apply_event event session (JournalEvent.tool_result_recorded turn entry result) =
    record_tool_result event turn entry result
apply_event event session (JournalEvent.tool_execution_completed operation turn result) =
    set_effect_terminal event operation turn (outcome_of result) (some result)
apply_event event session (JournalEvent.reasoning_recorded turn entry text visibility provenance) =
    append_quietly event entry (SessionEntryPayload.reasoning turn text visibility provenance)
      "reasoning" false
apply_event event session
      (JournalEvent.harness_observation_recorded turn entry harness kind data_) =
    append_quietly event entry (SessionEntryPayload.harness_observation turn harness kind data_)
      "harness_observation" false
apply_event event session (JournalEvent.context_compacted entry summary first tokens) =
    append_quietly event entry (SessionEntryPayload.context_compaction summary first tokens)
      "context_compaction" true
apply_event event session (JournalEvent.effect_scheduled operation turn effect) =
    schedule_effect_row event session operation turn effect
apply_event event session (JournalEvent.effect_started operation turn) =
    set_effect_started event operation
apply_event event session (JournalEvent.effect_succeeded operation turn result) =
    set_effect_terminal event operation turn Closing.succeeded none
apply_event event session (JournalEvent.effect_failed operation turn error) =
    set_effect_terminal event operation turn Closing.failed none
apply_event event session (JournalEvent.effect_uncertain operation turn reason) =
    set_effect_terminal event operation turn Closing.uncertain none
apply_event event session (JournalEvent.acp_binding_changed binding) = change_binding binding
apply_event event session (JournalEvent.acp_context_dispatched host harness version hash channel) =
    dispatch_context session host harness version hash channel
apply_event event session (JournalEvent.turn_completed turn stop_reason) =
    project_turn_terminal event turn TurnStatus.completed none
      (SessionEntryPayload.turn_completed turn stop_reason) (ClientEventKind.turn_completed turn)
apply_event event session (JournalEvent.turn_failed turn error) =
    project_turn_terminal event turn TurnStatus.failed (some error)
      (SessionEntryPayload.turn_failed turn error) (ClientEventKind.turn_failed turn error)
apply_event event session (JournalEvent.turn_cancelled turn) =
    project_turn_terminal event turn TurnStatus.cancelled none
      (SessionEntryPayload.turn_cancelled turn) (ClientEventKind.turn_cancelled turn)
apply_event event session (JournalEvent.turn_interrupted turn reason) =
    project_turn_terminal event turn TurnStatus.failed (some reason)
      (SessionEntryPayload.turn_failed turn reason) (ClientEventKind.turn_failed turn reason)
apply_event event session _ = pure tt

unfoldable pub apply_session_journal_entry : JournalEntry → Tx Unit
unfolding apply_event
apply_session_journal_entry event = do
  session ← journal_session_id event
  apply_event event session event.payload
