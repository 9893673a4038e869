-- ===== src/Store/Session/Turns.antt =====
-- crates/mews-store/src/sessions.rs: how the events of a Turn change its row.
use mews.Prelude.{
  ℕ, String, Bool, true, false, not, Option, none, some, [], ◌∷◌, ◌++◌, any, find, ◌==◌, ◌&&◌, ◌||◌,
  update_where, count,
}
use mews.Protocol.Events.Client.{ClientEventKind}
use mews.Protocol.Events.Journal.{JournalEntry}
use mews.Protocol.Messages.{HarnessProvenance, MessageContent, MessageSource, SessionEntryPayload}
use mews.Protocol.Turns.{TurnStatus}
use mews.Protocol.Values.{Uid, Time, Value}
use mews.Store.Result.{
  database, unique_violation, foreign_key_violation, invalid_data, active_turn_conflict,
  turn_not_active, turn_missing_or_terminal, revision_not_of_agent,
}
use mews.Store.Session.Entries.{
  insert_session_entry, append_session_entry, current_session_leaf, find_session, is_session,
  next_sequence, update_session, validate_session_item, with_leaf,
}
use mews.Store.Session.Signals.{append_durable_client_event}
use mews.Store.Tables.{Db, TurnRow, is_active, same_text}
use mews.Store.Tx.{Tx, ◌>>=◌, ◌>>◌, pure, fail, gets, modify, require}

unfoldable pub active_turn : Uid → Db → Option TurnRow
active_turn session db = find (λ t. t.session_id == session && is_active t) db.turns

-- PRIMARY KEY, UNIQUE (session_id, idempotency_key) and the index one_active_turn_per_session.
abbrev pub turn_clashes : TurnRow → TurnRow → Bool
turn_clashes new old =
    new.id == old.id
    || new.session_id == old.session_id
      && (same_text new.idempotency_key old.idempotency_key || is_active new && is_active old)

unfoldable pub add_turn : TurnRow → Db → Db
add_turn row db = record db { turns = db.turns ++ row ∷ [] }

-- INSERT INTO turns
unfoldable pub insert_turn : TurnRow → Tx Unit
insert_turn row = do
  taken ← gets (λ db. any (turn_clashes row) db.turns)
  require (not taken) (database unique_violation)
  known ← gets (is_session row.session_id)
  require known (database foreign_key_violation)
  modify (add_turn row)

-- UPDATE turns SET … WHERE …
unfoldable pub update_turns : (TurnRow → Bool) → (TurnRow → TurnRow) → Db → Db
update_turns p f db = record db { turns = update_where p f db.turns }

unfoldable pub revision_exists : Uid → ℕ → Db → Bool
revision_exists session revision db = elim (find_session session db) [
  | none ↦ false
  | some s ↦ any (λ r. r.agent_id == s.agent_id && r.revision == revision) db.revisions
]

unfoldable pub accepted_turn : JournalEntry → Uid → Uid → ℕ → MessageSource → TurnRow
accepted_turn event session turn_id agent_revision source = record {
  turn = record {
    id = turn_id;
    session_id = session;
    agent_revision = agent_revision;
    harness = none;
    harness_definition_hash = none;
    harness_version = none;
    status = TurnStatus.running;
    error = none;
    created_at = event.recorded_at;
    completed_at = none;
  };
  idempotency_key = event.correlation_id;
  channel_origin = source.channel_origin;
}

unfoldable pub no_active_turn : Uid → Tx Unit
no_active_turn session = do
  found ← gets (active_turn session)
  elim found [ none ↦ pure tt | some t ↦ fail (active_turn_conflict session t.id) ]

unfoldable pub accept_turn :
    JournalEntry → Uid → Uid → ℕ → Uid → MessageContent → Value → MessageSource → Tx Unit
unfolding accepted_turn
accept_turn event session turn_id agent_revision entry_id content metadata source = do
  no_active_turn session
  parent ← current_session_leaf session
  sequence ← gets (next_sequence session)
  let payload = SessionEntryPayload.user_message content metadata source
  validate_session_item payload
  insert_session_entry (record {
    entry = record {
      id = entry_id;
      session_id = session;
      sequence = sequence;
      parent_id = parent;
      payload = payload;
      created_at = event.recorded_at;
    };
    kind = "user_message";
    contextual = true;
    observation_key = none;
  })
  modify (update_session session (with_leaf (some entry_id)))
  exists ← gets (revision_exists session agent_revision)
  require exists (invalid_data revision_not_of_agent)
  insert_turn (accepted_turn event session turn_id agent_revision source)

unfoldable pub validate_active_turn : Uid → Uid → Tx Unit
validate_active_turn session turn_id = do
  active ←
      gets (λ db. any (λ t. t.id == turn_id && t.session_id == session && is_active t) db.turns)
  require active (invalid_data turn_not_active)

abbrev pub with_harness : HarnessProvenance → TurnRow → TurnRow
with_harness harness t = record t {
  turn = record t.turn {
    harness = some harness.name;
    harness_definition_hash = some harness.definition_hash;
    harness_version = harness.version;
  };
}

-- `entry_id` of an event that names none: `message_id_for_event`, the same text behind `msg_`.
unfoldable pub start_turn : JournalEntry → Uid → Uid → HarnessProvenance → Tx Unit
start_turn event session turn_id harness = do
  validate_active_turn session turn_id
  modify (update_turns (λ t. t.id == turn_id) (with_harness harness))
  entry ←
      append_session_entry event event.id (SessionEntryPayload.turn_started turn_id harness)
        "turn_started" false
  append_durable_client_event event (some event.id) (ClientEventKind.turn_started turn_id)

abbrev pub finished : TurnStatus → Option String → Time → TurnRow → TurnRow
finished status error at t = record t {
  turn = record t.turn { status = status; error = error; completed_at = some at };
}

abbrev pub has_ended : TurnStatus → Bool
has_ended TurnStatus.running = false
has_ended _ = true

abbrev pub terminal_name : TurnStatus → String
terminal_name TurnStatus.completed = "turn_completed"
terminal_name TurnStatus.cancelled = "turn_cancelled"
terminal_name _ = "turn_failed"

unfoldable pub project_turn_terminal :
    JournalEntry
    → Uid
    → TurnStatus
    → Option String
    → SessionEntryPayload
    → ClientEventKind
    → Tx Unit
project_turn_terminal event turn_id status error payload kind = do
  changed ← gets (λ db. count (λ t. t.id == turn_id && is_active t) db.turns)
  modify
      (update_turns (λ t. t.id == turn_id && is_active t) (finished status error event.recorded_at))
  require (changed == 1) (invalid_data turn_missing_or_terminal)
  entry ← append_session_entry event event.id payload (terminal_name status) false
  append_durable_client_event event (some event.id) kind
