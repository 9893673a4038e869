-- ===== src/Store/Journal/Examples.antt =====
-- The append of a command to an empty store, and its retry.
use text.Mathlib.Text.{◌==◌ as str_eq}
use mews.Prelude.{
  is_blank, ◌≡◌, refl, true, false, none, some, List, [], ◌∷◌, if◌then◌else◌, ◌⊎◌, find, any, arith,
}
use mews.Protocol.Events.Journal.{
  JournalEntry, JournalEvent, JournalEventType, JournalSubjectType, system_actor, subject_type,
  event_type,
}
use mews.Protocol.Events.Validate.{validate, validate_subject_id, is_text_of}
use mews.Protocol.Events.Laws.{validate_iff}
use mews.Protocol.Values.{IdKind, id_text, Value}
use mews.Store.Result.{ok, err, command_conflict}
use mews.Store.Tables.{Db, CommandReceipt}
use mews.Store.Tx.{Tx, ◌>>=◌, pure, gets, modify, require, utc_now, Moves}
use mews.Store.Journal.{
  appended, replayed, receipt_of, append_journal_entries_in, select_command_receipt, append_new,
  last_of, insert_entries, insert_entry, insert_row, insert_receipt, new_receipt,
}
use mews.Store.Journal.Check.{JournalAppend, validate_append, validate_new_entry}
use mews.Store.Journal.Text.{is_request_hash, blank_id}
use mews.Store.Journal.Retry.{Keeps, Appends, append_journal_entries_in_lem, retry_lem}

abbrev revoke : JournalAppend
revoke = record {
  command_id = "revoke-4";
  request_hash = "0123456789abcdef0123456789abcdef0123456789abcdef0123456789abcdef";
  result = Value.null;
  subjects =
      record {
        subject_type = JournalSubjectType.host;
        subject_id = id_text IdKind.hst 4;
        entries =
            record {
              id = 8;
              actor = system_actor;
              correlation_id = none;
              payload = JournalEvent.host_revoked 4;
            }
            ∷ [];
      }
      ∷ [];
}

abbrev empty : Db
empty = record {
  outside = record {
    uuid = λ n. 100;
    clock = λ n. 30;
    turn_text = λ t. "turn";
    host_text = λ t. "host";
    session_text = λ t. "session";
    payload_bytes = λ p. some 10;
    event_bytes = λ e. some 10;
    value_bytes = λ v. some 10;
    is_absolute = λ p. true;
    has_dot_component = λ p. false;
    request_hash = λ s c m o. none;
    turn_result = λ t e. Value.null;
    read_turn_result = λ v. none;
    hash_text = λ t. t;
    observation_value = λ o. none;
    value_type = λ v. none;
  };
  drawn = 0;
  readings = 0;
  hosts = [];
  agents = [];
  revisions = [];
  journal = [];
  last_position = 0;
  receipts = [];
  sessions = [];
  entries = [];
  turns = [];
  effects = [];
  bindings = [];
  feed = record { events = []; last_sequence = 0; consumers = []; subscriptions = [] };
}

abbrev nothing : List JournalEntry → Tx Unit
nothing es = pure tt

abbrev revoked : JournalEntry
revoked = record {
  id = 8;
  position = 1;
  subject = record { kind = JournalSubjectType.host; id = id_text IdKind.hst 4 };
  event_type = JournalEventType.host_revoked;
  recorded_at = 30;
  actor = system_actor;
  command_id = some "revoke-4";
  correlation_id = none;
  payload = JournalEvent.host_revoked 4;
}

abbrev receipt : CommandReceipt
receipt = record {
  command_id = "revoke-4";
  request_hash = "0123456789abcdef0123456789abcdef0123456789abcdef0123456789abcdef";
  result = Value.null;
  first_position = some 1;
  last_position = some 1;
  completed_at = 30;
}

abbrev revoked_db : Db
revoked_db = record empty {
  readings = 1;
  journal = revoked ∷ [];
  last_position = 1;
  receipts = receipt ∷ [];
}

nothing-Keeps : (es : List JournalEntry) → Moves Keeps (nothing es)
unfolding pure
nothing-Keeps es = record {
  at = λ db. record { journal = refl; watermark = refl; receipts = refl };
}

revoke_entry-valid :
    validate_new_entry JournalSubjectType.host (id_text IdKind.hst 4) (record {
      id = 8;
      actor = system_actor;
      correlation_id = none;
      payload = JournalEvent.host_revoked 4;
    })
    ≡ none
unfolding validate_new_entry validate_subject_id is_text_of subject_type
revoke_entry-valid = ground arith

revoked-valid : validate revoked ≡ none
unfolding event_type subject_type
revoked-valid = (validate_iff revoked).1 (4, refl, refl, refl, refl)

revoke-ok :
    append_journal_entries_in revoke nothing empty
    ≡ ok (appended (revoked ∷ []) receipt, revoked_db)
unfolding append_journal_entries_in append_new insert_entries insert_entry ◌>>=◌ pure gets modify
    require utc_now insert_row insert_receipt new_receipt validate_append is_blank is_request_hash
    blank_id select_command_receipt find any event_type validate last_of
revoke-ok = rw (revoke_entry-valid, revoked-valid) refl

append_journal_entries_in_lem_example :
    ((es : List JournalEntry) × (r : CommandReceipt) × (appended (revoked ∷ []) receipt
        ≡ appended es r)
      × Appends revoke es r empty revoked_db)
    ⊎ ((r : CommandReceipt) × (select_command_receipt "revoke-4" empty.receipts ≡ some r)
        × (r.request_hash ≡ revoke.request_hash)
        × (appended (revoked ∷ []) receipt ≡ replayed r)
        × (revoked_db ≡ empty))
append_journal_entries_in_lem_example =
    append_journal_entries_in_lem revoke nothing nothing-Keeps empty
      (appended (revoked ∷ []) receipt) revoked_db revoke-ok

revoke-valid : validate_append revoke ≡ none
unfolding validate_append is_blank is_request_hash blank_id any
revoke-valid = rw revoke_entry-valid refl

retry_lem_example : append_journal_entries_in revoke nothing revoked_db ≡ (
    if str_eq revoke.request_hash revoke.request_hash
    then ok (replayed receipt, revoked_db)
    else err (command_conflict "revoke-4"))
unfolding receipt_of
retry_lem_example =
    retry_lem revoke revoke nothing nothing nothing-Keeps empty (appended (revoked ∷ []) receipt)
      revoked_db revoke-ok revoke-valid refl
