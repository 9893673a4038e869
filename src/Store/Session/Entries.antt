-- ===== src/Store/Session/Entries.antt =====
-- crates/mews-store/src/sessions.rs: the entries of a Session and its leaf.
use mews.Prelude.{
  ℕ, suc, max, String, Bool, true, not, Option, none, some, List, [], ◌∷◌, ◌++◌, any, find, ltb,
  ◌==◌, ◌&&◌, ◌||◌, if◌then◌else◌, update_where,
}
use mews.Protocol.Events.Journal.{JournalEntry}
use mews.Protocol.Messages.{SessionEntry, SessionEntryPayload}
use mews.Protocol.Messages.Input.{max_session_item_bytes}
use mews.Protocol.Turns.{Session}
use mews.Protocol.Values.{Uid}
use mews.Store.Journal.Record.{journal_session_id}
use mews.Store.Result.{
  database, no_rows, unique_violation, foreign_key_violation, invalid_data, serialization, Invalid,
}
use mews.Store.Tables.{Db, EntryRow, same_text}
use mews.Store.Tx.{Tx, ◌>>=◌, ◌>>◌, pure, gets, modify, require, require_some, when}

unfoldable pub is_session : Uid → Db → Bool
is_session session db = any (λ s. s.id == session) db.sessions

abbrev pub find_session : Uid → Db → Option Session
find_session session db = find (λ s. s.id == session) db.sessions

unfoldable pub current_session_leaf : Uid → Tx (Option Uid)
current_session_leaf session = do
  found ← gets (find_session session)
  row ← require_some found (database no_rows)
  pure row.leaf_entry_id

unfoldable pub max_entry_sequence : Uid → List EntryRow → ℕ
max_entry_sequence session [] = 0
max_entry_sequence session (e ∷ es) =
    let rest = max_entry_sequence session es in
    if e.session_id == session then max e.sequence rest else rest

-- SELECT COALESCE(MAX(sequence) + 1, 1); the numbers start at 1, so that a maximum of 0 is none.
unfoldable pub next_sequence : Uid → Db → ℕ
unfolding max_entry_sequence
next_sequence session db = suc (max_entry_sequence session db.entries)

unfoldable pub validate_session_item : SessionEntryPayload → Tx Unit
validate_session_item payload = do
  size ← gets (λ db. db.outside.payload_bytes payload)
  bytes ← require_some size (invalid_data serialization)
  require (not (ltb max_session_item_bytes bytes)) (invalid_data Invalid.item_too_large)

-- PRIMARY KEY, UNIQUE (session_id, sequence) and the index acp_observation_idempotency.
abbrev pub entry_clashes : EntryRow → EntryRow → Bool
entry_clashes new old =
    new.id == old.id
    || new.session_id == old.session_id
      && (new.sequence == old.sequence || same_text new.observation_key old.observation_key)

abbrev pub has_entry : Uid → Uid → Db → Bool
has_entry session id db = any (λ e. e.id == id && e.session_id == session) db.entries

-- The rows that a new entry refers to.
unfoldable pub entry_parents_exist : EntryRow → Db → Bool
unfolding is_session
entry_parents_exist row db =
    is_session row.session_id db
    && elim row.parent_id [ none ↦ true | some p ↦ has_entry row.session_id p db ]

unfoldable pub add_entry : EntryRow → Db → Db
add_entry row db = record db { entries = db.entries ++ row ∷ [] }

-- INSERT INTO session_entries
unfoldable pub insert_session_entry : EntryRow → Tx Unit
insert_session_entry row = do
  taken ← gets (λ db. any (entry_clashes row) db.entries)
  require (not taken) (database unique_violation)
  known ← gets (entry_parents_exist row)
  require known (database foreign_key_violation)
  modify (add_entry row)

-- UPDATE sessions SET … WHERE id = …
unfoldable pub update_session : Uid → (Session → Session) → Db → Db
update_session session f db = record db {
  sessions = update_where (λ s. s.id == session) f db.sessions;
}

abbrev pub with_leaf : Option Uid → Session → Session
with_leaf leaf s = record s { leaf_entry_id = leaf }

-- Only the observations of a harness are told apart by a key.
unfoldable pub observation_key_of : JournalEntry → SessionEntryPayload → Option String
observation_key_of event (SessionEntryPayload.reasoning _ _ _ _) = event.correlation_id
observation_key_of event (SessionEntryPayload.harness_observation _ _ _ _) = event.correlation_id
observation_key_of event _ = none

unfoldable pub append_session_entry :
    JournalEntry → Uid → SessionEntryPayload → String → Bool → Tx SessionEntry
append_session_entry event entry_id payload kind contextual = do
  session ← journal_session_id event
  validate_session_item payload
  parent ← current_session_leaf session
  sequence ← gets (next_sequence session)
  let entry : SessionEntry = record {
    id = entry_id;
    session_id = session;
    sequence = sequence;
    parent_id = parent;
    payload = payload;
    created_at = event.recorded_at;
  }
  insert_session_entry (record {
    entry = entry;
    kind = kind;
    contextual = contextual;
    observation_key = observation_key_of event payload;
  })
  when contextual (modify (update_session session (with_leaf (some entry_id))))
  pure entry
