-- ===== src/Store/Session/Record.antt =====
-- crates/mews-store/src/sessions.rs: the recording of one event of a Session together with what it
-- changes, its actor, and the reading of an entry.
use mews.Prelude.{String, Bool, false, Option, none, some, any, find, ◌==◌, ◌&&◌}
use mews.Protocol.Events.Journal.{EventActor, EventActorKind, JournalEvent}
use mews.Protocol.Messages.{SessionEntry}
use mews.Protocol.Values.{Uid}
use mews.Store.Journal.Record.{record_session_event_correlated}
use mews.Store.Result.{database, no_rows, invalid_data, not_found, Kind, invalid_actor_kind}
use mews.Store.Session.Apply.{apply_session_journal_entry}
use mews.Store.Session.Entries.{find_session}
use mews.Store.Tables.{Db, same_text}
use mews.Store.Tx.{Tx, ◌>>=◌, pure, fail, gets, require_some}

-- `record_session_event_correlated`, then `apply_session_journal_entry`.
unfoldable pub record_applied : Uid → EventActor → JournalEvent → Option String → Tx Unit
record_applied session actor payload key = do
  event ← record_session_event_correlated session actor payload key
  apply_session_journal_entry event

abbrev pub harness_actor : String → EventActor
harness_actor harness = record { kind = EventActorKind.harness; id = some harness }

unfoldable pub turn_actor : Uid → Uid → EventActorKind → Tx EventActor
turn_actor session turn_id EventActorKind.host = do
  found ← gets (find_session session)
  row ← require_some found (database no_rows)
  name ← gets (λ db. db.outside.host_text row.host_id)
  pure (record { kind = EventActorKind.host; id = some name })
turn_actor session turn_id EventActorKind.harness = do
  found ← gets (λ db. find (λ t. t.id == turn_id && t.session_id == session) db.turns)
  row ← require_some found (database no_rows)
  pure (harness_actor (elim row.harness [ none ↦ "mews" | some h ↦ h ]))
turn_actor session turn_id _ = fail (invalid_data invalid_actor_kind)

unfoldable pub observation_exists : Uid → Option String → Db → Bool
observation_exists session none db = false
observation_exists session (some key) db =
    any (λ e. e.session_id == session && same_text (some key) e.observation_key) db.entries

unfoldable pub select_session_entry : Uid → Uid → Tx SessionEntry
select_session_entry session id = do
  found ← gets (λ db. find (λ e. e.session_id == session && e.id == id) db.entries)
  row ← require_some found (not_found Kind.session_entry id)
  pure row.entry
