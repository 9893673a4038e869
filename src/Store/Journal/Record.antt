-- ===== src/Store/Journal/Record.antt =====
-- crates/mews-store/src/{events,sessions}.rs: one event inside a transaction that changes the state.
use mews.Prelude.{String, Option, none, some}
use mews.Protocol.Events.Journal.{
  EventActor, JournalEvent, JournalEntry, JournalSubject, JournalSubjectType,
}
use mews.Protocol.Values.{Uid, IdKind, IdText, id_text, malformed}
use mews.Store.Journal.{accepted, insert_entry, payload_turn_id}
use mews.Store.Journal.Check.{NewJournalEntry, validate_new_entry}
use mews.Store.Result.{invalid_data, not_a_session}
use mews.Store.Tx.{Tx, ◌>>=◌, ◌>>◌, pure, fail, gets, new_id, utc_now}

-- The text of the Turn of a payload.
unfoldable pub turn_correlation : JournalEvent → Tx (Option String)
turn_correlation payload =
    gets (λ db. elim (payload_turn_id payload) [
      | none ↦ none
      | some t ↦ some (db.outside.turn_text t)
    ])

-- An entry without a correlation takes the Turn of its payload.
unfoldable pub record_journal_entry :
    JournalSubjectType → IdText → NewJournalEntry → Tx JournalEntry
record_journal_entry kind subject entry = do
  default ← turn_correlation entry.payload
  let entry' = record entry {
    correlation_id = elim entry.correlation_id [ none ↦ default | some c ↦ some c ];
  }
  accepted (validate_new_entry kind subject entry')
  now ← utc_now
  insert_entry none kind subject now entry'

unfoldable pub record_session_event_correlated :
    Uid → EventActor → JournalEvent → Option String → Tx JournalEntry
record_session_event_correlated session actor payload correlation = do
  id ← new_id
  record_journal_entry JournalSubjectType.session (id_text IdKind.ses session)
      (record { id = id; actor = actor; correlation_id = correlation; payload = payload })

unfoldable pub record_session_event : Uid → EventActor → JournalEvent → Tx JournalEntry
record_session_event session actor payload =
    record_session_event_correlated session actor payload none

abbrev pub session_of_subject : JournalSubject → Option Uid
session_of_subject s = elim s.kind [
  | JournalSubjectType.session ↦ elim s.id [
    | id_text kind i ↦ elim kind [ IdKind.ses ↦ some i | _ ↦ none ]
    | malformed t ↦ none
  ]
  | _ ↦ none
]

unfoldable pub journal_session_id : JournalEntry → Tx Uid
journal_session_id e = elim (session_of_subject e.subject) [
  | none ↦ fail (invalid_data not_a_session)
  | some i ↦ pure i
]
