-- ===== src/Store/Session/Signals.antt =====
-- crates/mews-store/src/delivery.rs: the client events that a change of a Session writes, and the
-- live signals of a Turn.
use mews.Prelude.{
  ◌-◌, String, Bool, true, false, not, Option, none, some, any, find, ltb, u64_mod, ◌==◌, ◌&&◌,
  ◌||◌,
}
use mews.Protocol.Events.Client.{ClientEventKind, RuntimeSignal, RuntimeSignalPayload, turn_id}
use mews.Protocol.Events.Journal.{JournalEntry}
use mews.Protocol.Messages.{ChannelOrigin}
use mews.Protocol.Values.{Uid, Time}
use mews.Store.Feed.{
  Feed, EventRow, clashes, insert_event, insert_or_ignore_event, max_event_page_payload_bytes,
}
use mews.Store.Journal.Record.{journal_session_id}
use mews.Store.Result.{
  Result, ok, err, database, foreign_key_violation, invalid_data, serialization, event_too_large,
}
use mews.Store.Session.Entries.{is_session, has_entry}
use mews.Store.Tables.{Db}
use mews.Store.Tx.{Tx, ◌>>=◌, ◌>>◌, gets, require, require_some}

-- The channel of the Turn that the event belongs to.
unfoldable pub channel_origin : ClientEventKind → Db → Option ChannelOrigin
channel_origin kind db = elim (turn_id kind) [
  | none ↦ none
  | some t ↦ elim (find (λ r. r.id == t) db.turns) [ none ↦ none | some r ↦ r.channel_origin ]
]

unfoldable pub validate_client_event :
    Uid → Uid → ClientEventKind → Option ChannelOrigin → Time → Tx Unit
validate_client_event session id kind origin created_at = do
  size ← gets (λ db. db.outside.event_bytes (record {
    id = id;
    sequence = u64_mod - 1;
    session_id = session;
    channel_origin = origin;
    kind = kind;
    created_at = created_at;
  }))
  bytes ← require_some size (invalid_data serialization)
  require (not (ltb max_event_page_payload_bytes bytes)) (invalid_data event_too_large)

-- The rows that a new event refers to.
unfoldable pub event_parents_exist : EventRow → Db → Bool
unfolding is_session
event_parents_exist row db =
    is_session row.session_id db
    && elim row.entry_id [ none ↦ true | some e ↦ has_entry row.session_id e db ]
    && elim row.journal_entry_id [ none ↦ true | some j ↦ any (λ e. e.id == j) db.journal ]

abbrev pub with_feed : Feed → Db → Db
with_feed feed db = record db { feed = feed }

-- A statement on the tables of `Feed`.
unfoldable pub change_feed : (Feed → Result Feed) → Tx Unit
change_feed f db = elim (f db.feed) [ err e ↦ err e | ok feed ↦ ok (tt, with_feed feed db) ]

unfoldable pub append_durable_client_event : JournalEntry → Option Uid → ClientEventKind → Tx Unit
append_durable_client_event event entry_id kind = do
  session ← journal_session_id event
  origin ← gets (channel_origin kind)
  validate_client_event session event.id kind origin event.recorded_at
  let row : EventRow = record {
    event = record {
      id = event.id;
      sequence = 0;
      session_id = session;
      channel_origin = origin;
      kind = kind;
      created_at = event.recorded_at;
    };
    entry_id = entry_id;
    journal_entry_id = some event.id;
    journal_position = some event.position;
    idempotency_key = none;
    transient = false;
  }
  change_feed (insert_event row)
  known ← gets (event_parents_exist row)
  require known (database foreign_key_violation)

unfoldable pub signal_kind : Uid → RuntimeSignalPayload → ClientEventKind
signal_kind t (RuntimeSignalPayload.assistant_delta delta message) =
    ClientEventKind.assistant_delta t delta message
signal_kind t (RuntimeSignalPayload.reasoning_delta delta message) =
    ClientEventKind.reasoning_delta t delta message
signal_kind t (RuntimeSignalPayload.tool_activity activity) =
    ClientEventKind.tool_activity t activity

unfoldable pub runtime_payload_from_client : ClientEventKind → Option RuntimeSignalPayload
runtime_payload_from_client (ClientEventKind.assistant_delta _ delta message) =
    some (RuntimeSignalPayload.assistant_delta delta message)
runtime_payload_from_client (ClientEventKind.reasoning_delta _ delta message) =
    some (RuntimeSignalPayload.reasoning_delta delta message)
runtime_payload_from_client (ClientEventKind.tool_activity _ activity) =
    some (RuntimeSignalPayload.tool_activity activity)
runtime_payload_from_client _ = none

unfoldable pub signal_row : RuntimeSignal → Option String → EventRow
signal_row signal key = record {
  event = record {
    id = signal.id;
    sequence = 0;
    session_id = signal.session_id;
    channel_origin = signal.channel_origin;
    kind = signal_kind signal.turn_id signal.payload;
    created_at = signal.emitted_at;
  };
  entry_id = none;
  journal_entry_id = none;
  journal_position = none;
  idempotency_key = key;
  transient = true;
}

-- With a key a signal that is there already is left alone.
unfoldable pub insert_signal : Option String → EventRow → Feed → Result Feed
insert_signal none row f = insert_event row f
insert_signal (some key) row f = ok (insert_or_ignore_event row f)

-- OR IGNORE leaves a foreign key in force only for a row that is inserted.
unfoldable pub append_runtime_signal_in : RuntimeSignal → Option String → Tx Unit
unfolding signal_row insert_signal
append_runtime_signal_in signal key = do
  validate_client_event signal.session_id signal.id (signal_kind signal.turn_id signal.payload)
      signal.channel_origin signal.emitted_at
  ignored ← gets (λ db. any (clashes (signal_row signal key)) db.feed.events)
  change_feed (insert_signal key (signal_row signal key))
  known ← gets (is_session signal.session_id)
  require (known || ignored) (database foreign_key_violation)
