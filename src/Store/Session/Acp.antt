-- ===== src/Store/Session/Acp.antt =====
-- crates/mews-store/src/sessions.rs: the binding of a Session to a Session of a harness, and the
-- observations of it.
use Prim.Native.String.{◌++◌ as append_text}
use text.Mathlib.Text.{◌==◌ as str_eq}
use mews.Prelude.{
  ℕ, ◌*◌, String, Bool, not, Option, none, some, find, ltb, ◌==◌, ◌&&◌, ◌||◌, byte_len,
  if◌then◌else◌,
}
use mews.Protocol.Events.Journal.{JournalEvent}
use mews.Protocol.Messages.{ReasoningProvenance}
use mews.Protocol.Turns.{
  AcpBindingTransition, AcpInstructionChannel, AcpObservation, AcpReplacementReason,
  AcpSessionBinding,
}
use mews.Protocol.Values.{Uid, Time}
use mews.Store.Result.{
  invalid_data, not_found, Kind, invalid_binding, binding_conflict, serialization,
}
use mews.Store.Session.Actions.{unless_observed}
use mews.Store.Session.Record.{record_applied, harness_actor}
use mews.Store.Tables.{Db}
use mews.Store.Tx.{Tx, ◌>>=◌, ◌>>◌, pure, gets, require, require_some, new_id, utc_now, when}

-- MAX_ACP_SESSION_ID_BYTES
abbrev pub max_acp_session_id_bytes : ℕ
max_acp_session_id_bytes = 4 * 1024

-- MAX_ACP_CONTEXT_BYTES
abbrev pub max_acp_context_bytes : ℕ
max_acp_context_bytes = 64 * 1024

-- The arguments of a binding; of the snapshot of the context its version.
pub record BindingRequest : Type 0 where
  pub session_id : Uid
  pub host_id : Uid
  pub harness : String
  pub definition_hash : String
  pub acp_session_id : String
  pub transition : AcpBindingTransition
  pub context_version : ℕ
  pub context_text : String
  pub channel : AcpInstructionChannel
  pub context_dispatched : Bool

abbrev pub is_valid_binding : BindingRequest → Bool
is_valid_binding q = not (
    byte_len q.harness == 0
    || byte_len q.definition_hash == 0
    || byte_len q.acp_session_id == 0
    || ltb max_acp_session_id_bytes (byte_len q.acp_session_id)
    || ltb max_acp_context_bytes (byte_len q.context_text))

unfoldable pub select_acp_binding : Uid → Db → Option AcpSessionBinding
select_acp_binding session db = find (λ b. b.session_id == session) db.bindings

abbrev pub new_binding : BindingRequest → String → Time → AcpSessionBinding
new_binding q hash now = record {
  session_id = q.session_id;
  host_id = q.host_id;
  harness = q.harness;
  harness_definition_hash = q.definition_hash;
  acp_session_id = q.acp_session_id;
  context_version = q.context_version;
  context_hash = hash;
  context_channel = q.channel;
  context_text = q.context_text;
  context_dispatched = q.context_dispatched;
  created_at = now;
  replaced_at = none;
  last_replacement_reason = none;
}

abbrev pub replaced_binding :
    BindingRequest → String → Time → AcpReplacementReason → AcpSessionBinding → AcpSessionBinding
replaced_binding q hash now reason existing = record (new_binding q hash now) {
  session_id = existing.session_id;
  host_id = existing.host_id;
  created_at = existing.created_at;
  replaced_at = some now;
  last_replacement_reason = some reason;
}

-- The binding that a request leads to, where there is one already.
unfoldable pub rebind :
    BindingRequest
    → String
    → Time
    → AcpSessionBinding
    → AcpBindingTransition
    → Option AcpSessionBinding
rebind q hash now existing (AcpBindingTransition.replace reason) =
    if existing.host_id == q.host_id
    then some (replaced_binding q hash now reason existing)
    else none
rebind q hash now existing AcpBindingTransition.new =
    if existing.host_id == q.host_id
      && str_eq existing.harness q.harness
      && str_eq existing.harness_definition_hash q.definition_hash
      && str_eq existing.acp_session_id q.acp_session_id
    then some existing
    else none
rebind q hash now existing (AcpBindingTransition.resume id) = none

unfoldable pub bind_first :
    BindingRequest → String → Time → AcpBindingTransition → Option AcpSessionBinding
bind_first q hash now AcpBindingTransition.new = some (new_binding q hash now)
bind_first q hash now _ = none

unfoldable pub decide_acp_binding : BindingRequest → Tx AcpSessionBinding
unfolding rebind bind_first
decide_acp_binding q = do
  require (is_valid_binding q) (invalid_data invalid_binding)
  found ← gets (select_acp_binding q.session_id)
  now ← utc_now
  hash ← gets (λ db. db.outside.hash_text q.context_text)
  require_some
      (elim found [
        | none ↦ bind_first q hash now q.transition
        | some existing ↦ rebind q hash now existing q.transition
      ])
      (invalid_data binding_conflict)

-- `decide_acp_binding` and the event of its outcome.
unfoldable pub change_acp_binding : BindingRequest → Tx Unit
change_acp_binding q = do
  binding ← decide_acp_binding q
  record_applied q.session_id (harness_actor q.harness) (JournalEvent.acp_binding_changed binding)
      none

unfoldable pub bind_acp_session : BindingRequest → Tx AcpSessionBinding
bind_acp_session q = do
  change_acp_binding q
  found ← gets (select_acp_binding q.session_id)
  require_some found (invalid_data invalid_binding)

-- The event that tells of an observation, in its place in the timeline.
unfoldable pub observation_event : Uid → Option String → AcpObservation → Uid → Tx JournalEvent
observation_event turn acp (AcpObservation.completed_reasoning text message visibility) entry =
    pure (
      JournalEvent.reasoning_recorded turn entry text visibility
        (ReasoningProvenance.harness "acp" message))
observation_event turn acp observation entry = do
  found ← gets (λ db. db.outside.observation_value observation)
  content ← require_some found (invalid_data serialization)
  kind ← gets (λ db. db.outside.value_type content)
  pure (
      JournalEvent.harness_observation_recorded turn entry acp
        (elim kind [ none ↦ "acp" | some k ↦ k ]) content)

unfoldable pub record_acp_observation_transaction :
    Uid → Uid → Option String → Option String → AcpObservation → Tx Unit
record_acp_observation_transaction session turn acp key observation =
    unless_observed session key (do
      entry ← new_id
      payload ← observation_event turn acp observation entry
      record_applied session (harness_actor "acp") payload key)

unfoldable pub append_acp_observation :
    Uid → Uid → Option String → Option String → AcpObservation → Tx Unit
append_acp_observation = record_acp_observation_transaction

abbrev pub dispatch_key : String → String
dispatch_key acp = append_text "context_dispatched:" acp

unfoldable pub bind_acp_session_with_observations : BindingRequest → Uid → Tx Unit
bind_acp_session_with_observations q turn = do
  turn_name ← gets (λ db. db.outside.turn_text turn)
  let key = append_text "binding:" turn_name
  unless_observed q.session_id (some key) (do
    change_acp_binding q
    record_acp_observation_transaction q.session_id turn (some q.acp_session_id) (some key)
        (AcpObservation.binding_changed q.transition)
    hash ← gets (λ db. db.outside.hash_text q.context_text)
    when q.context_dispatched (
        record_acp_observation_transaction q.session_id turn (some q.acp_session_id)
          (some (dispatch_key q.acp_session_id))
          (AcpObservation.context_dispatched q.context_version hash q.channel q.context_text)))

-- The rest of `mark_acp_context_dispatched_with_observation`, once the binding is found.
unfoldable pub mark_dispatched : Uid → Uid → String → AcpSessionBinding → Tx Unit
mark_dispatched session turn acp b = do
  require (str_eq b.acp_session_id acp) (not_found Kind.acp_binding session)
  record_applied session (harness_actor b.harness)
      (JournalEvent.acp_context_dispatched b.host_id b.harness b.context_version b.context_hash
        b.context_channel)
      none
  record_acp_observation_transaction session turn (some acp) (some (dispatch_key acp)) (
      AcpObservation.context_dispatched b.context_version b.context_hash b.context_channel
        b.context_text)

unfoldable pub mark_acp_context_dispatched_with_observation : Uid → Uid → String → Tx Unit
mark_acp_context_dispatched_with_observation session turn acp =
    unless_observed session (some (dispatch_key acp)) (do
      found ← gets (select_acp_binding session)
      b ← require_some found (not_found Kind.acp_binding session)
      mark_dispatched session turn acp b)
