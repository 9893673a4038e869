-- ===== src/Store/Journal/Check.antt =====
-- crates/mews-store/src/events.rs: what a command may append.
use mathlib.Core.Logic.{ite}
use mews.Prelude.{is_blank, String, Option, none, some, List, [], ◌∷◌, any, ◌==◌, if◌then◌else◌}
use mews.Protocol.Events.Journal.{EventActor, JournalEvent, JournalSubjectType, subject_type}
use mews.Protocol.Events.Validate.{
  JournalError, JournalSubjectType-discrete, validate_subject_id, ◌or_else◌,
}
use mews.Protocol.Values.{Uid, IdText, Value}
use mews.Store.Journal.Text.{is_request_hash, blank_id, same_subject}
use mews.Store.Result.{
  Invalid, empty_command_id, bad_request_hash, empty_subject_id, repeated_subject,
  repeated_entry_id, wrong_subject_type,
}

pub record NewJournalEntry : Type 0 where
  pub id : Uid
  pub actor : EventActor
  pub correlation_id : Option String
  pub payload : JournalEvent

pub record JournalSubjectAppend : Type 0 where
  pub subject_type : JournalSubjectType
  pub subject_id : IdText
  pub entries : List NewJournalEntry

pub record JournalAppend : Type 0 where
  pub command_id : String
  pub request_hash : String
  pub result : Value
  pub subjects : List JournalSubjectAppend

journal_error : Option JournalError → Option Invalid
journal_error none = none
journal_error (some e) = some (Invalid.journal e)

unfoldable pub validate_new_entry : JournalSubjectType → IdText → NewJournalEntry → Option Invalid
unfolding journal_error
validate_new_entry kind subject entry =
    ite (JournalSubjectType-discrete (subject_type entry.payload) kind) none
      (some wrong_subject_type)
    or_else journal_error (validate_subject_id entry.payload subject)

-- The inner loop: the IDs seen so far, and those after it.
check_entries : JournalSubjectAppend → List NewJournalEntry → List Uid → Option Invalid × List Uid
check_entries s [] ids = (none, ids)
check_entries s (e ∷ es) ids =
    let more = check_entries s es (e.id ∷ ids) in
    if any (λ i. i == e.id) ids
    then (some repeated_entry_id, ids)
    else elim (validate_new_entry s.subject_type s.subject_id e) [
      | some x ↦ (some x, e.id ∷ ids)
      | none ↦ more
    ]

check_subjects : List JournalSubjectAppend → List JournalSubjectAppend → List Uid → Option Invalid
unfolding check_entries
check_subjects seen [] ids = none
check_subjects seen (s ∷ ss) ids =
    let (failed, ids') = check_entries s s.entries ids in
    let more = check_subjects (s ∷ seen) ss ids' in
    if blank_id s.subject_id
    then some empty_subject_id
    else if any (λ t. same_subject t.subject_type t.subject_id s.subject_type s.subject_id) seen
    then some repeated_subject
    else (failed or_else more)

unfoldable pub validate_append : JournalAppend → Option Invalid
unfolding check_subjects
validate_append a =
    (if is_blank a.command_id then some empty_command_id else none)
    or_else (if is_request_hash a.request_hash then none else some bad_request_hash)
    or_else check_subjects [] a.subjects []
