-- ===== src/Store/Result.antt =====
-- crates/mews-store/src/lib.rs: StoreError, and the `?` on results. The text of an `InvalidData`
-- message is told by a constructor of `Invalid`.
use mews.Prelude.{String, Option, none, some, Bool, true, false}
use mews.Protocol.Events.Validate.{JournalError}
use mews.Protocol.Messages.Input.{TurnInputValidationError}
use mews.Protocol.Values.{Uid}

pub data Invalid : Type 0 where
  running_status turn_finished open_effects turn_harness_empty turn_harness_differs : Invalid
  turn_not_active turn_missing_or_terminal revision_not_of_agent not_a_session : Invalid
  effect_not_scheduled effect_missing_or_terminal scheduled_effect_not_owned : Invalid
  started_effect_not_owned invalid_actor_kind : Invalid
  empty_command_id bad_request_hash empty_subject_id repeated_subject repeated_entry_id : Invalid
  wrong_subject_type serialization item_too_large event_too_large stored_event_too_large
        stored_item_too_large :
      Invalid
  consumer_changes_durability checkpoint_ahead item_exceeds_page : Invalid
  invalid_binding binding_conflict dispatch_mismatch delta_not_transient : Invalid
  effect_still_open tool_effect_missing duplicate_observation_key : Invalid
  invalid_turn_input : TurnInputValidationError → Invalid
  relative_directory uncanonical_directory invalid_model invalid_source_id : Invalid
  metadata_too_large empty_text bad_receipt not_a_message : Invalid
  empty_summary compaction_outside_branch leaf_not_contextual not_a_user_message : Invalid
  journal : JournalError → Invalid

-- The rows that a constraint of the schema refuses, or a query that finds none.
pub data DbError : Type 0 where
  unique_violation foreign_key_violation no_rows : DbError

pub data Kind : Type 0 where
  session turn event_consumer agent session_entry acp_binding : Kind

pub data StoreError : Type 0 where
  database : DbError → StoreError
  invalid_data : Invalid → StoreError
  not_found : Kind → Uid → StoreError
  command_conflict : String → StoreError
  active_turn_conflict : Uid → Uid → StoreError
  leaf_conflict : Option Uid → Option Uid → StoreError

pub data Result {ℓ} (A : Type ℓ) : Type ℓ where
  ok : A → Result A
  err : StoreError → Result A

infixl 5 ◌>>=◌ ◌>>◌
-- `?` on the first result.
abbrev pub ◌>>=◌ {ℓ κ} : {S : Type ℓ} {T : Type κ} → Result S → (S → Result T) → Result T
r >>= next = elim r [ err e ↦ err e | ok s ↦ next s ]

abbrev pub ◌>>◌ {κ} : {T : Type κ} → Result (Unit {0}) → Result T → Result T
first >> second = elim first [ err e ↦ err e | ok _ ↦ second ]

-- `ok_or_else` with an error that is given.
abbrev pub ok_or {ℓ} : {A : Type ℓ} → Option A → StoreError → Result A
ok_or found e = elim found [ none ↦ err e | some a ↦ ok a ]

-- `if !condition { return Err(e) }`
abbrev pub guard : Bool → StoreError → Result (Unit {0})
guard condition e = elim condition [ false ↦ err e | true ↦ ok tt ]
