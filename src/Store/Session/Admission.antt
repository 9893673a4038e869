-- ===== src/Store/Session/Admission.antt =====
-- crates/mews-store/src/sessions.rs: the acceptance of a user's input as a Turn, once for each key.
pub mod Accepted
pub mod Laws
mod Examples
use Prim.Native.String.{◌++◌ as append_text}
use text.Mathlib.Text.{◌==◌ as str_eq}
use mews.Prelude.{ℕ, String, Bool, not, Option, none, some, List, [], ◌∷◌, find, ◌==◌}
use mews.Protocol.Events.Journal.{JournalEntry, JournalEvent, JournalSubjectType, from_source}
use mews.Protocol.Messages.{Message, MessageContent, MessageSource}
use mews.Protocol.Messages.Input.{TurnInputValidationError, validate_turn_input}
use mews.Protocol.Turns.{Turn}
use mews.Protocol.Values.{IdKind, id_text, Uid, Value}
use mews.Store.Journal.{append_journal_entries_in, receipt_of, select_command_receipt, was_replayed}
use mews.Store.Journal.Check.{JournalAppend}
use mews.Store.Result.{
  invalid_data, not_found, Kind, command_conflict, serialization, bad_receipt, invalid_turn_input,
}
use mews.Store.Session.Apply.{apply_session_journal_entry}
use mews.Store.Session.Entries.{find_session}
use mews.Store.Session.Finish.{select_turn}
use mews.Store.Session.Record.{select_session_entry}
use mews.Store.Session.Sessions.{message_from_entry}
use mews.Store.Tables.{Db}
use mews.Store.Tx.{Tx, ◌>>=◌, ◌>>◌, pure, fail, gets, require, require_some, new_id}

-- What a client asks for.
pub record TurnRequest : Type 0 where
  pub session : Uid
  pub key : String
  pub content : MessageContent
  pub metadata : Value
  pub source : MessageSource

unfoldable pub input_error : TurnRequest → MessageContent → Db → Option TurnInputValidationError
input_error q content db =
    validate_turn_input db.outside.value_bytes db.outside.payload_bytes q.key content q.metadata
      q.source

unfoldable pub validate_input : TurnRequest → MessageContent → Tx Unit
validate_input q content = do
  found ← gets (input_error q content)
  elim found [ none ↦ pure tt | some e ↦ fail (invalid_data (invalid_turn_input e)) ]

unfoldable pub turn_command_id : TurnRequest → Db → String
turn_command_id q db =
    append_text "turn:" (append_text (db.outside.session_text q.session) (append_text ":" q.key))

unfoldable pub turn_request_hash : TurnRequest → Tx String
turn_request_hash q = do
  found ← gets (λ db. db.outside.request_hash q.session q.content q.metadata q.source)
  require_some found (invalid_data serialization)

unfoldable pub load_turn_result : Uid → Value → Tx (Turn × Message)
load_turn_result session result = do
  found ← gets (λ db. db.outside.read_turn_result result)
  ids ← require_some found (invalid_data bad_receipt)
  turn ← select_turn ids.0
  entry ← select_session_entry session ids.1
  message ← message_from_entry entry
  pure (turn, message)

unfoldable pub replay_turn_idempotent : TurnRequest → Tx (Option (Turn × Message))
replay_turn_idempotent q = do
  validate_input q q.content
  command ← gets (turn_command_id q)
  known ← gets (λ db. select_command_receipt command db.receipts)
  elim known [
    | none ↦ pure none
    | some receipt ↦ (do
      hash ← turn_request_hash q
      require (str_eq receipt.request_hash hash) (command_conflict command)
      loaded ← load_turn_result q.session receipt.result
      pure (some loaded))
  ]

-- The revision of the agent of a Session.
unfoldable pub session_revision : Uid → Db → Option ℕ
session_revision session db = elim (find_session session db) [
  | none ↦ none
  | some s ↦ elim (find (λ a. a.id == s.agent_id) db.agents) [
    | none ↦ none
    | some a ↦ some a.current_revision
  ]
]

-- The projection of the event of the append.
unfoldable pub apply_first : List JournalEntry → Tx Unit
apply_first [] = pure tt
apply_first (e ∷ es) = apply_session_journal_entry e

unfoldable pub turn_append : TurnRequest → MessageContent → ℕ → Tx JournalAppend
unfolding from_source
turn_append q resolved revision = do
  turn ← new_id
  entry ← new_id
  command ← gets (turn_command_id q)
  hash ← turn_request_hash q
  result ← gets (λ db. db.outside.turn_result turn entry)
  event ← new_id
  pure (record {
    command_id = command;
    request_hash = hash;
    result = result;
    subjects =
        record {
          subject_type = JournalSubjectType.session;
          subject_id = id_text IdKind.ses q.session;
          entries =
              record {
                id = event;
                actor = from_source q.source;
                correlation_id = some q.key;
                payload =
                    JournalEvent.turn_accepted turn revision entry resolved q.metadata q.source;
              }
              ∷ [];
        }
        ∷ [];
  })

unfoldable pub accept_turn_idempotent : TurnRequest → MessageContent → Tx (Turn × Message × Bool)
accept_turn_idempotent q resolved = do
  validate_input q q.content
  validate_input q resolved
  found ← gets (session_revision q.session)
  revision ← require_some found (not_found Kind.session q.session)
  append ← turn_append q resolved revision
  outcome ← append_journal_entries_in append apply_first
  let receipt = receipt_of outcome
  loaded ← load_turn_result q.session receipt.result
  pure (loaded.0, loaded.1, not (was_replayed outcome))
