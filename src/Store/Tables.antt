-- ===== src/Store/Tables.antt =====
-- crates/mews-store/src/schema.rs: the tables that sessions, turns and the journal use, each a list of
-- rows in the order of insertion; and what the store takes from outside.
use text.Mathlib.Text.{◌==◌ as str_eq}
use mews.Prelude.{ℕ, String, Bool, true, false, Option, none, some, List}
use mews.Protocol.Events.Client.{ClientEvent}
use mews.Protocol.Events.Journal.{EffectRequest, JournalEntry}
use mews.Protocol.Messages.{
  ChannelOrigin, MessageContent, MessageSource, SessionEntry, SessionEntryPayload, ToolResult,
}
use mews.Protocol.Turns.{AcpObservation, AcpSessionBinding, Session, Turn}
use mews.Protocol.Values.{Uid, Time, Value}
use mews.Store.Feed.{Feed}

-- The n-th UUID that is drawn, the n-th reading of the clock, the texts of IDs, the sizes of serialized
-- values (`none`: they cannot be serialized), what the standard library says of a path, the hash of a
-- request for a Turn and of a text, the JSON object of a Turn's ID and its entry's ID with its reading, and
-- the JSON value of an observation with the text under its key `type`.
pub record Outside : Type 0 where
  pub uuid : ℕ → Uid
  pub clock : ℕ → Time
  pub turn_text : Uid → String
  pub host_text : Uid → String
  pub session_text : Uid → String
  pub payload_bytes : SessionEntryPayload → Option ℕ
  pub event_bytes : ClientEvent → Option ℕ
  pub value_bytes : Value → Option ℕ
  pub is_absolute : String → Bool
  pub has_dot_component : String → Bool
  pub request_hash : Uid → MessageContent → Value → MessageSource → Option String
  pub turn_result : Uid → Uid → Value
  pub read_turn_result : Value → Option (Uid × Uid)
  pub hash_text : String → String
  pub observation_value : AcpObservation → Option Value
  pub value_type : Value → Option String

pub record EntryRow : Type 0 where
  pub entry : SessionEntry
  pub open entry use *
  pub kind : String
  pub contextual : Bool
  pub observation_key : Option String

pub record TurnRow : Type 0 where
  pub turn : Turn
  pub open turn use *
  pub idempotency_key : Option String
  pub channel_origin : Option ChannelOrigin

pub data EffectStatus : Type 0 where
  scheduled started succeeded failed uncertain : EffectStatus

pub record EffectRow : Type 0 where
  pub operation_id : Uid
  pub session_id : Uid
  pub turn_id : Uid
  pub call_id : Option String
  pub tool : Option String
  pub request : EffectRequest
  pub status : EffectStatus
  pub raw_result : Option ToolResult
  pub scheduled_journal_entry_id : Uid
  pub terminal_journal_entry_id : Option Uid
  pub scheduled_at : Time
  pub started_at : Option Time
  pub completed_at : Option Time

pub record CommandReceipt : Type 0 where
  pub command_id : String
  pub request_hash : String
  pub result : Value
  pub first_position : Option ℕ
  pub last_position : Option ℕ
  pub completed_at : Time

-- An agent's ID, current revision and whether it is archived, and one of its revisions.
pub record AgentRow : Type 0 where
  pub id : Uid
  pub current_revision : ℕ
  pub archived : Bool

pub record RevisionRow : Type 0 where
  pub agent_id : Uid
  pub revision : ℕ

-- `last_position` is the AUTOINCREMENT watermark of the journal.
pub record Db : Type 0 where
  pub outside : Outside
  pub drawn : ℕ
  pub readings : ℕ
  pub hosts : List Uid
  pub agents : List AgentRow
  pub revisions : List RevisionRow
  pub journal : List JournalEntry
  pub last_position : ℕ
  pub receipts : List CommandReceipt
  pub sessions : List Session
  pub entries : List EntryRow
  pub turns : List TurnRow
  pub effects : List EffectRow
  pub bindings : List AcpSessionBinding
  pub feed : Feed

-- `completed_at IS NULL`
abbrev pub is_active : TurnRow → Bool
is_active t = elim t.completed_at [ none ↦ true | some _ ↦ false ]

-- `status IN ('scheduled', 'started')`
abbrev pub is_open : EffectStatus → Bool
is_open EffectStatus.scheduled = true
is_open EffectStatus.started = true
is_open _ = false

abbrev pub is_scheduled : EffectStatus → Bool
is_scheduled EffectStatus.scheduled = true
is_scheduled _ = false

abbrev pub is_started : EffectStatus → Bool
is_started EffectStatus.started = true
is_started _ = false

-- Equality of columns in a UNIQUE constraint, where NULL differs from all.
abbrev pub same_text : Option String → Option String → Bool
same_text (some a) (some b) = str_eq a b
same_text _ _ = false
