-- ===== src/Store/Session/Examples.antt =====
-- A Session with one Turn at work, a tool call of which runs: its end, and its recovery.
use mews.Prelude.{
  ℕ, Option, ◌+◌, true, false, none, some, List, [], ◌∷◌, ◌++◌, any, find, keep, count, length,
  Updated, update_where, ◌≡◌, refl, ◌⊎◌, ◌==◌, ◌&&◌, arith,
}
use mews.Protocol.Events.Journal.{EffectRequest, subject_type, event_type}
use mews.Protocol.Messages.{
  ReasoningProvenance, ReasoningVisibility, SessionEntry, SessionEntryPayload, ToolCall,
}
use mews.Protocol.Turns.{Session, TurnStatus}
use mews.Protocol.Values.{Value}
use mews.Store.Result.{ok, err, invalid_data, turn_finished}
use mews.Store.Session.Actions.{EffectOutcome, append_reasoning}
use mews.Store.Session.Active.{LaterTurn, SoundTurns, run-Advances}
use mews.Store.Session.Calls.{Call, kept, run}
use mews.Store.Session.Finish.{
  close_open_effects, by_time, insert_by_time, close_effect, record_terminated_tool_result,
  close_orphan_tool_calls, session_payloads, requested_calls, requested, is_completed, completes,
  raw_results, raw_completion, close_call, record_interrupted_tool_processing,
  finish_turn_with_stop_reason, finish_active, finish_again, select_turn,
}
use mews.Store.Session.Finish.Ended.{Finished}
use mews.Store.Session.Finish.Laws.{Repeated, finish_turn_lem, finish_turn_twice}
use mews.Store.Session.Numbers.{Numbered, run-Grows}
use mews.Store.Session.Pages.{session_entries, session_entries_page}
use mews.Store.Session.Pages.Laws.{IsPart, session_entries_page_lem}
use mews.Store.Session.Progress.{SoundEffects}
use mews.Store.Session.Recover.{recover_interrupted_work, drop_transient, interrupt_turn}
use mews.Store.Session.Recover.Laws.{Halted, recover_interrupted_work_lem}
use mews.Store.Tables.{Db, EffectRow, EffectStatus, EntryRow, TurnRow, is_active}
use mews.Store.Tx.{
  ◌>>=◌, modify, gets, for_each, new_id, utc_now, pure, require, require_some, when, fail,
}
use mews.Store.Session.Record.{record_applied}
use mews.Store.Session.Apply.{apply_session_journal_entry, apply_event}
use mews.Store.Session.Entries.{
  is_session, current_session_leaf, next_sequence, max_entry_sequence, validate_session_item,
  entry_parents_exist, add_entry, insert_session_entry, update_session, observation_key_of,
  append_session_entry,
}
use mews.Store.Session.Signals.{
  channel_origin, validate_client_event, event_parents_exist, change_feed,
  append_durable_client_event,
}
use mews.Store.Session.Effects.{update_effects, set_effect_terminal}
use mews.Store.Session.Turns.{update_turns, project_turn_terminal}
use mews.Store.Session.Transcript.{message_source_for_event, message_of, record_tool_result}
use mews.Store.Journal.{insert_row, insert_entry, payload_turn_id, committed_entry}
use mews.Store.Journal.Record.{
  turn_correlation, record_journal_entry, record_session_event_correlated, journal_session_id,
}
use mews.Store.Journal.Check.{validate_new_entry}
use mews.Store.Feed.{insert_event, clashes, append_event}
use mews.Protocol.Events.Validate.{
  validate, validate_subject, validate_subject_id, parses_as, is_text_of,
  JournalSubjectType-discrete, JournalEventType-discrete, IdKind-discrete, id_prefix,
}
use mews.Protocol.Events.Names.{event_as_str, subject_as_str}
use mews.Protocol.Events.Client.{turn_id}

abbrev session : Session
session = record {
  id = 5;
  agent_id = 2;
  host_id = 3;
  working_directory = "/work";
  model_override = none;
  leaf_entry_id = none;
  created_at = 1;
}

abbrev call : ToolCall
call = record { call_id = "call"; tool = "shell"; arguments = Value.null; thought_signature = none }

abbrev turn : TurnRow
turn = record {
  turn = record {
    id = 7;
    session_id = 5;
    agent_revision = 1;
    harness = none;
    harness_definition_hash = none;
    harness_version = none;
    status = TurnStatus.running;
    error = none;
    created_at = 1;
    completed_at = none;
  };
  idempotency_key = none;
  channel_origin = none;
}

abbrev request : EntryRow
request = record {
  entry = record {
    id = 8;
    session_id = 5;
    sequence = 1;
    parent_id = none;
    payload = SessionEntryPayload.tool_started 7 call;
    created_at = 1;
  };
  kind = "tool_started";
  contextual = false;
  observation_key = none;
}

abbrev effect : EffectRow
effect = record {
  operation_id = 9;
  session_id = 5;
  turn_id = 7;
  call_id = some "call";
  tool = some "shell";
  request = EffectRequest.tool_call call;
  status = EffectStatus.started;
  raw_result = none;
  scheduled_journal_entry_id = 10;
  terminal_journal_entry_id = none;
  scheduled_at = 1;
  started_at = some 1;
  completed_at = none;
}

abbrev busy : Db
busy = record {
  outside = record {
    uuid = λ n. n + 100;
    clock = λ n. n + 30;
    turn_text = λ t. "turn";
    host_text = λ t. "host";
    session_text = λ t. "session";
    payload_bytes = λ p. some 10;
    event_bytes = λ e. some 10;
    value_bytes = λ v. some 10;
    is_absolute = λ p. true;
    has_dot_component = λ p. false;
    request_hash = λ s c m o. none;
    turn_result = λ t e. Value.null;
    read_turn_result = λ v. none;
    hash_text = λ t. t;
    observation_value = λ o. none;
    value_type = λ v. none;
  };
  drawn = 0;
  readings = 0;
  hosts = 3 ∷ [];
  agents = record { id = 2; current_revision = 1; archived = false } ∷ [];
  revisions = record { agent_id = 2; revision = 1 } ∷ [];
  journal = [];
  last_position = 0;
  receipts = [];
  sessions = session ∷ [];
  entries = request ∷ [];
  turns = turn ∷ [];
  effects = effect ∷ [];
  bindings = [];
  feed = record { events = []; last_sequence = 0; consumers = []; subscriptions = [] };
}

busy-SoundTurns : SoundTurns busy.turns
unfolding count keep
busy-SoundTurns = record {
  one_active = λ s. ground arith;
  one_named = λ i. ground arith;
  dated = (refl, tt);
}

busy-SoundEffects : SoundEffects busy.effects
unfolding count keep
busy-SoundEffects = record { one_named = λ o. ground arith }

busy-Numbered : Numbered busy.entries
busy-Numbered s = ground arith

run-Advances_example :
    SoundTurns (run (Call.recover ∷ []) busy).turns
    × Updated LaterTurn busy.turns (run (Call.recover ∷ []) busy).turns
run-Advances_example = run-Advances (Call.recover ∷ []) busy busy-SoundTurns

-- The started effect succeeds, another is scheduled and started, and the Hub stops.
abbrev effect_calls : List Call
effect_calls =
    Call.finish 5 7 9 (EffectOutcome.succeeded none)
    ∷ Call.start 5 7 (EffectRequest.tool_call call)
    ∷ Call.recover
    ∷ []

run-Grows_example :
    Numbered (run (Call.recover ∷ []) busy).entries
    × (new : List EntryRow) × ((run (Call.recover ∷ []) busy).entries ≡ busy.entries ++ new)
run-Grows_example = run-Grows (Call.recover ∷ []) busy busy-Numbered

abbrev recovered : Db
recovered = kept busy (recover_interrupted_work busy)

recover_interrupted_work_lem_example :
    (any is_active recovered.turns ≡ false)
    × (length recovered.turns ≡ 1)
    × Updated Halted (turn ∷ []) recovered.turns
unfolding ◌>>=◌ modify gets for_each new_id utc_now pure require require_some when fail
    recover_interrupted_work drop_transient interrupt_turn close_open_effects by_time insert_by_time
    close_effect record_terminated_tool_result close_orphan_tool_calls session_payloads
    requested_calls requested is_completed completes raw_results raw_completion close_call
    record_interrupted_tool_processing finish_turn_with_stop_reason finish_active finish_again
    select_turn record_applied apply_session_journal_entry apply_event is_session
    current_session_leaf next_sequence max_entry_sequence validate_session_item entry_parents_exist
    add_entry insert_session_entry update_session observation_key_of append_session_entry
    channel_origin validate_client_event event_parents_exist change_feed append_durable_client_event
    update_effects set_effect_terminal update_turns project_turn_terminal message_source_for_event
    message_of record_tool_result insert_row insert_entry payload_turn_id committed_entry
    turn_correlation record_journal_entry record_session_event_correlated journal_session_id
    validate_new_entry insert_event clashes append_event validate validate_subject
    validate_subject_id parses_as is_text_of JournalSubjectType-discrete JournalEventType-discrete
    IdKind-discrete id_prefix event_as_str subject_as_str subject_type event_type turn_id any find
    keep count update_where
recover_interrupted_work_lem_example = recover_interrupted_work_lem busy recovered refl

abbrev failed_db : Db
failed_db = kept busy (finish_turn_with_stop_reason 7 TurnStatus.failed none none busy)

finish_turn_lem_example :
    ((row : TurnRow) × (find (λ r. r.id == 7 && is_active r) busy.turns ≡ some row)
      × Finished 7 TurnStatus.failed row.session_id failed_db)
    ⊎ Repeated 7 TurnStatus.failed busy failed_db
unfolding ◌>>=◌ modify gets for_each new_id utc_now pure require require_some when fail
    recover_interrupted_work drop_transient interrupt_turn close_open_effects by_time insert_by_time
    close_effect record_terminated_tool_result close_orphan_tool_calls session_payloads
    requested_calls requested is_completed completes raw_results raw_completion close_call
    record_interrupted_tool_processing finish_turn_with_stop_reason finish_active finish_again
    select_turn record_applied apply_session_journal_entry apply_event is_session
    current_session_leaf next_sequence max_entry_sequence validate_session_item entry_parents_exist
    add_entry insert_session_entry update_session observation_key_of append_session_entry
    channel_origin validate_client_event event_parents_exist change_feed append_durable_client_event
    update_effects set_effect_terminal update_turns project_turn_terminal message_source_for_event
    message_of record_tool_result insert_row insert_entry payload_turn_id committed_entry
    turn_correlation record_journal_entry record_session_event_correlated journal_session_id
    validate_new_entry insert_event clashes append_event validate validate_subject
    validate_subject_id parses_as is_text_of JournalSubjectType-discrete JournalEventType-discrete
    IdKind-discrete id_prefix event_as_str subject_as_str subject_type event_type turn_id any find
    keep count update_where
finish_turn_lem_example =
    finish_turn_lem 7 TurnStatus.failed none none busy failed_db busy-SoundTurns busy-SoundEffects
      refl

-- The Session once its Turn is completed.
abbrev idle : Db
idle = record busy {
  entries = [];
  effects = [];
  turns =
      record turn {
        turn = record turn.turn { status = TurnStatus.completed; completed_at = some 2 };
      }
      ∷ [];
}

idle-Finished : Finished 7 TurnStatus.completed 5 idle
unfolding any session_payloads requested_calls keep
idle-Finished = record {
  there = refl;
  ended = (λ h. (refl, refl), tt);
  closed = refl;
  answered = tt;
}

finish_turn_twice_example :
    finish_turn_with_stop_reason 7 TurnStatus.failed none none idle
    ≡ err (invalid_data turn_finished)
finish_turn_twice_example =
    finish_turn_twice 7 TurnStatus.completed TurnStatus.failed 5 none none idle idle-Finished refl

session_entries_page_lem_example :
    (out : List SessionEntry) × (next : Option ℕ) × (session_entries_page
        (λ e. some (400000 + e.sequence))
        5
        none
        9
        busy
      ≡ ok (out, next))
    × IsPart (λ e. e.sequence) (λ e. 400000 + e.sequence) none 9 (session_entries 5 busy) out next
session_entries_page_lem_example =
    session_entries_page_lem (λ e. some (400000 + e.sequence)) (λ e. 400000 + e.sequence)
      (λ e. refl) 5 none 9 busy busy-Numbered (omega arith, tt)

abbrev thought : Db
thought = kept busy (
    append_reasoning 5 7 "so" ReasoningVisibility.visible (ReasoningProvenance.harness "mews" none)
      (some "key") busy)
