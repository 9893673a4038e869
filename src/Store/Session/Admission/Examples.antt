-- ===== src/Store/Session/Admission/Examples.antt =====
-- A Session at rest: a request for a Turn is accepted, and replayed.
use mews.Prelude.{String, none, some, true, false, [], ◌∷◌, ◌≡◌, refl, ◌+◌}
use mews.Prelude.{byte_len, is_blank}
use mews.Store.Journal.Text.{blank_id}
use mews.Protocol.Messages.{Message, MessageContent, MessageRole, SourceKind}
use mews.Protocol.Turns.{Session, Turn, TurnStatus}
use mews.Protocol.Values.{Value}
use mews.Store.Result.{Result, ok, err}
use mews.Store.Session.Admission.{TurnRequest, accept_turn_idempotent, replay_turn_idempotent}
use mews.Store.Session.Admission.Laws.{replay_turn_idempotent_lem}
use mews.Store.Tables.{Db}
use mews.Store.Tx.{◌>>=◌, modify, gets, new_id, utc_now, pure, require, require_some, when, fail}
use mews.Store.Session.Finish.{select_turn}
use mews.Store.Session.Record.{record_applied, select_session_entry}
use mews.Store.Session.Apply.{apply_session_journal_entry, apply_event}
use mews.Store.Session.Entries.{
  is_session, current_session_leaf, next_sequence, max_entry_sequence, validate_session_item,
  entry_parents_exist, add_entry, insert_session_entry, update_session, observation_key_of,
  append_session_entry,
}
use mews.Store.Session.Signals.{
  channel_origin, validate_client_event, event_parents_exist, change_feed,
  append_durable_client_event,
}
use mews.Store.Session.Turns.{
  update_turns, accept_turn, no_active_turn, active_turn, insert_turn, add_turn, accepted_turn,
  revision_exists,
}
use mews.Store.Journal.{
  insert_row, insert_entry, payload_turn_id, committed_entry, append_journal_entries_in,
  unless_known, append_new, insert_subjects, insert_entries, insert_receipt, new_receipt,
  select_command_receipt, receipt_of, was_replayed,
}
use mews.Store.Journal.Record.{
  turn_correlation, record_journal_entry, record_session_event_correlated, journal_session_id,
}
use mews.Store.Journal.Check.{validate_new_entry, validate_append}
use mews.Store.Feed.{insert_event, clashes, append_event}
use mews.Protocol.Events.Validate.{
  validate, validate_subject, validate_subject_id, parses_as, is_text_of,
  JournalSubjectType-discrete, JournalEventType-discrete, IdKind-discrete, id_prefix,
}
use mews.Protocol.Events.Names.{event_as_str, subject_as_str}
use mews.Protocol.Events.Journal.{subject_type, event_type}
use mews.Protocol.Events.Client.{turn_id}
use mews.Prelude.{any, find, keep, count, update_where}
use mews.Store.Session.Admission.{
  accept_turn_idempotent, validate_input, input_error, turn_append, turn_request_hash,
  turn_command_id, session_revision, apply_first, load_turn_result,
}
use mews.Store.Journal.Text.{is_request_hash}
use mews.Store.Session.Sessions.{message_from_entry, payload_message}
use mews.Protocol.Messages.Input.{validate_turn_input}

abbrev a_hash : String
a_hash = "00000000000000000000000000000000ffffffffffffffffffffffffffffffff"

abbrev session : Session
session = record {
  id = 5;
  agent_id = 2;
  host_id = 3;
  working_directory = "/work";
  model_override = none;
  leaf_entry_id = none;
  created_at = 1;
}

abbrev calm : Db
calm = record {
  outside = record {
    uuid = λ n. n + 100;
    clock = λ n. n + 30;
    turn_text = λ t. "turn";
    host_text = λ t. "host";
    session_text = λ t. "session";
    payload_bytes = λ p. some 10;
    event_bytes = λ e. some 10;
    value_bytes = λ v. some 10;
    is_absolute = λ p. true;
    has_dot_component = λ p. false;
    request_hash = λ s c m o. some a_hash;
    turn_result = λ t e. Value.null;
    read_turn_result = λ v. some (100, 101);
    hash_text = λ t. t;
    observation_value = λ o. none;
    value_type = λ v. none;
  };
  drawn = 0;
  readings = 0;
  hosts = 3 ∷ [];
  agents = record { id = 2; current_revision = 1; archived = false } ∷ [];
  revisions = record { agent_id = 2; revision = 1 } ∷ [];
  journal = [];
  last_position = 0;
  receipts = [];
  sessions = session ∷ [];
  entries = [];
  turns = [];
  effects = [];
  bindings = [];
  feed = record { events = []; last_sequence = 0; consumers = []; subscriptions = [] };
}

abbrev hello : TurnRequest
hello = record {
  session = 5;
  key = "key";
  content = MessageContent.text "hello";
  metadata = Value.null;
  source = record { kind = SourceKind.client; id = "cli"; channel_origin = none };
}

abbrev turn : Turn
turn = record {
  id = 100;
  session_id = 5;
  agent_revision = 1;
  harness = none;
  harness_definition_hash = none;
  harness_version = none;
  status = TurnStatus.running;
  error = none;
  created_at = 30;
  completed_at = none;
}

abbrev message : Message
message = record {
  id = 101;
  session_id = 5;
  sequence = 1;
  role = MessageRole.user;
  content = MessageContent.text "hello";
  metadata = Value.null;
  source = hello.source;
  created_at = 30;
}

-- The tables that a call leaves.
abbrev left : {A : Type 0} → Db → Result (A × Db) → Db
left db (ok (a, db')) = db'
left db (err e) = db

abbrev accepted : Db
accepted = left calm (accept_turn_idempotent hello hello.content calm)

replay_turn_idempotent_lem_example :
    replay_turn_idempotent hello accepted ≡ ok (some (turn, message), accepted)
unfolding ◌>>=◌ modify gets new_id utc_now pure require require_some when fail select_turn
    record_applied apply_session_journal_entry apply_event is_session current_session_leaf
    next_sequence max_entry_sequence validate_session_item entry_parents_exist add_entry
    insert_session_entry update_session observation_key_of append_session_entry channel_origin
    validate_client_event event_parents_exist change_feed append_durable_client_event update_turns
    insert_row insert_entry payload_turn_id committed_entry turn_correlation record_journal_entry
    record_session_event_correlated journal_session_id validate_new_entry insert_event clashes
    append_event validate validate_subject validate_subject_id parses_as is_text_of
    JournalSubjectType-discrete JournalEventType-discrete IdKind-discrete id_prefix event_as_str
    subject_as_str subject_type event_type turn_id any find keep count update_where
    accept_turn_idempotent validate_input input_error turn_append turn_request_hash turn_command_id
    session_revision append_journal_entries_in unless_known append_new insert_subjects
    insert_entries insert_receipt new_receipt select_command_receipt validate_append is_request_hash
    apply_first receipt_of was_replayed load_turn_result message_from_entry payload_message
    accept_turn no_active_turn active_turn insert_turn add_turn accepted_turn revision_exists
    select_session_entry validate_turn_input byte_len is_blank blank_id
replay_turn_idempotent_lem_example =
    replay_turn_idempotent_lem hello hello hello.content calm accepted turn message true a_hash
      a_hash refl refl refl refl refl refl
