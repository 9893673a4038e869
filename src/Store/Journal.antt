-- ===== src/Store/Journal.antt =====
-- crates/mews-store/src/events.rs: the journal, the commands that append to it, and their receipts.
pub mod Payloads
pub mod Text
pub mod Check
pub mod Record
pub mod Laws
pub mod Retry
mod Examples
use Prim.Native.String.{◌++◌ as append_text}
use text.Mathlib.Text.{◌==◌ as str_eq}
use mews.Prelude.{
  ℕ, suc, ltb, String, Bool, true, false, not, Option, none, some, List, [], ◌∷◌, ◌++◌, map, any,
  find, keep, take, ◌==◌, ◌&&◌, if◌then◌else◌,
}
use mews.Protocol.Events.Journal.{
  EventActor, system_actor, JournalEvent, JournalEntry, JournalSubjectType, event_type,
  subject_type,
}
use mews.Protocol.Events.Validate.{JournalError, validate, validate_subject_id}
use mews.Protocol.Values.{Uid, IdKind, IdText, id_text, malformed, Time, Value}
use mews.Store.Result.{
  StoreError, database, unique_violation, invalid_data, command_conflict, Invalid, serialization,
  not_a_session,
}
use mews.Store.Tables.{Db, CommandReceipt}
use mews.Store.Tx.{
  Tx, ◌>>=◌, ◌>>◌, pure, fail, gets, modify, require, require_some, utc_now, new_id,
}
use Check.{NewJournalEntry, JournalSubjectAppend, JournalAppend, validate_append}

pub data AppendOutcome : Type 0 where
  appended : List JournalEntry → CommandReceipt → AppendOutcome
  replayed : CommandReceipt → AppendOutcome

unfoldable pub receipt_of : AppendOutcome → CommandReceipt
receipt_of (appended entries receipt) = receipt
receipt_of (replayed receipt) = receipt

unfoldable pub was_replayed : AppendOutcome → Bool
was_replayed (appended entries receipt) = false
was_replayed (replayed receipt) = true

unfoldable pub select_command_receipt : String → List CommandReceipt → Option CommandReceipt
select_command_receipt id = find (λ r. str_eq r.command_id id)

abbrev pub checked : Option JournalError → Tx Unit
checked none = pure tt
checked (some e) = fail (invalid_data (Invalid.journal e))

abbrev pub accepted : Option Invalid → Tx Unit
accepted none = pure tt
accepted (some e) = fail (invalid_data e)

unfoldable pub committed_entry :
    Option String → JournalSubjectType → IdText → Time → NewJournalEntry → ℕ → JournalEntry
committed_entry command kind subject recorded_at entry position = record {
  id = entry.id;
  position = position;
  subject = record { kind = kind; id = subject };
  event_type = event_type entry.payload;
  recorded_at = recorded_at;
  actor = entry.actor;
  command_id = command;
  correlation_id = entry.correlation_id;
  payload = entry.payload;
}

-- INSERT INTO journal_entries: the row takes the next AUTOINCREMENT number.
unfoldable pub insert_row : JournalEntry → Db → Db
insert_row e db = record db { journal = db.journal ++ e ∷ []; last_position = e.position }

unfoldable pub insert_entry :
    Option String → JournalSubjectType → IdText → Time → NewJournalEntry → Tx JournalEntry
unfolding committed_entry
insert_entry command kind subject recorded_at entry = do
  taken ← gets (λ db. any (λ e. e.id == entry.id) db.journal)
  require (not taken) (database unique_violation)
  last ← gets (λ db. db.last_position)
  let committed = committed_entry command kind subject recorded_at entry (suc last)
  modify (insert_row committed)
  checked (validate committed)
  pure committed

unfoldable pub insert_entries :
    String → Time → JournalSubjectAppend → List NewJournalEntry → Tx (List JournalEntry)
insert_entries command at subject [] = pure []
insert_entries command at subject (e ∷ es) = do
  first ← insert_entry (some command) subject.subject_type subject.subject_id at e
  rest ← insert_entries command at subject es
  pure (first ∷ rest)

unfoldable pub insert_subjects : String → Time → List JournalSubjectAppend → Tx (List JournalEntry)
insert_subjects command at [] = pure []
insert_subjects command at (s ∷ ss) = do
  first ← insert_entries command at s s.entries
  rest ← insert_subjects command at ss
  pure (first ++ rest)

unfoldable pub last_of : ℕ → List JournalEntry → ℕ
last_of n [] = n
last_of n (e ∷ es) = last_of e.position es

abbrev pub first_position : List JournalEntry → Option ℕ
first_position [] = none
first_position (e ∷ es) = some e.position

abbrev pub final_position : List JournalEntry → Option ℕ
final_position [] = none
final_position (e ∷ es) = some (last_of e.position es)

unfoldable pub new_receipt : JournalAppend → Time → List JournalEntry → CommandReceipt
new_receipt append recorded_at committed = record {
  command_id = append.command_id;
  request_hash = append.request_hash;
  result = append.result;
  first_position = first_position committed;
  last_position = final_position committed;
  completed_at = recorded_at;
}

-- INSERT INTO command_receipts
unfoldable pub insert_receipt : CommandReceipt → Db → Db
insert_receipt receipt db = record db { receipts = db.receipts ++ receipt ∷ [] }

-- The rest of `append_journal_entries_in`, once a retry is ruled out.
unfoldable pub append_new : JournalAppend → (List JournalEntry → Tx Unit) → Tx AppendOutcome
unfolding insert_subjects
append_new append mutate = do
  recorded_at ← utc_now
  committed ← insert_subjects append.command_id recorded_at append.subjects
  mutate committed
  modify (insert_receipt (new_receipt append recorded_at committed))
  pure (appended committed (new_receipt append recorded_at committed))

-- A retry of a command gets its receipt; another request of its name is refused.
unfoldable pub unless_known :
    JournalAppend → (List JournalEntry → Tx Unit) → Option CommandReceipt → Tx AppendOutcome
unless_known append mutate none = append_new append mutate
unless_known append mutate (some receipt) =
    if str_eq receipt.request_hash append.request_hash
    then pure (replayed receipt)
    else fail (command_conflict append.command_id)

unfoldable pub append_journal_entries_in :
    JournalAppend → (List JournalEntry → Tx Unit) → Tx AppendOutcome
unfolding unless_known
append_journal_entries_in append mutate = do
  accepted (validate_append append)
  known ← gets (λ db. select_command_receipt append.command_id db.receipts)
  unless_known append mutate known

-- The Turn that a payload belongs to.
unfoldable pub payload_turn_id : JournalEvent → Option Uid
payload_turn_id (JournalEvent.turn_accepted t _ _ _ _ _) = some t
payload_turn_id (JournalEvent.turn_started t _) = some t
payload_turn_id (JournalEvent.assistant_response_recorded t _ _) = some t
payload_turn_id (JournalEvent.tool_call_requested t _ _) = some t
payload_turn_id (JournalEvent.tool_execution_completed _ t _) = some t
payload_turn_id (JournalEvent.tool_result_recorded t _ _) = some t
payload_turn_id (JournalEvent.reasoning_recorded t _ _ _ _) = some t
payload_turn_id (JournalEvent.harness_observation_recorded t _ _ _ _) = some t
payload_turn_id (JournalEvent.turn_completed t _) = some t
payload_turn_id (JournalEvent.turn_failed t _) = some t
payload_turn_id (JournalEvent.turn_cancelled t) = some t
payload_turn_id (JournalEvent.turn_interrupted t _) = some t
payload_turn_id (JournalEvent.effect_scheduled _ t _) = some t
payload_turn_id (JournalEvent.effect_started _ t) = some t
payload_turn_id (JournalEvent.effect_succeeded _ t _) = some t
payload_turn_id (JournalEvent.effect_failed _ t _) = some t
payload_turn_id (JournalEvent.effect_uncertain _ t _) = some t
payload_turn_id _ = none
