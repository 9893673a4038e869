-- ===== src/Store/Session/Sessions.antt =====
-- crates/mews-store/src/sessions.rs: the creation of a Session and the changes of its model, its leaf
-- and its transcript by hand.
use mews.Prelude.{
  ◌*◌, String, Bool, true, false, not, Option, none, some, any, ltb, ◌==◌, ◌&&◌, ◌||◌, byte_len,
  is_blank,
}
use mews.Protocol.Events.Journal.{JournalEvent, from_source, system_actor}
use mews.Protocol.Messages.{
  Message, MessageContent, MessageRole, MessageSource, SessionEntry, SessionEntryPayload,
  SourceKind,
}
use mews.Protocol.Messages.Input.{is_empty_text}
use mews.Protocol.Turns.{Session}
use mews.Protocol.Values.{Uid, Value}
use mews.Store.Result.{
  invalid_data, not_found, Kind, leaf_conflict, serialization, Invalid, relative_directory,
  uncanonical_directory, invalid_model, invalid_source_id, not_a_message, not_a_user_message,
  leaf_not_contextual,
}
use mews.Store.Session.Entries.{find_session, is_session, validate_session_item}
use mews.Store.Session.Record.{record_applied, select_session_entry}
use mews.Store.Session.Transcript.{response_text}
use mews.Store.Tables.{Db}
use mews.Store.Tx.{Tx, ◌>>=◌, ◌>>◌, pure, fail, gets, require, require_some, new_id, utc_now}

unfoldable pub select_session : Uid → Tx Session
select_session id = do
  found ← gets (find_session id)
  require_some found (not_found Kind.session id)

unfoldable pub create_session : Uid → Uid → String → Tx Session
create_session agent host directory = do
  absolute ← gets (λ db. db.outside.is_absolute directory)
  require absolute (invalid_data relative_directory)
  dotted ← gets (λ db. db.outside.has_dot_component directory)
  require (not dotted) (invalid_data uncanonical_directory)
  known ← gets (λ db. any (λ a. a.id == agent && not a.archived) db.agents)
  require known (not_found Kind.agent agent)
  id ← new_id
  now ← utc_now
  let session : Session = record {
    id = id;
    agent_id = agent;
    host_id = host;
    working_directory = directory;
    model_override = none;
    leaf_entry_id = none;
    created_at = now;
  }
  record_applied id system_actor (JournalEvent.session_created session) none
  pure session

abbrev pub valid_model : Option String → Bool
valid_model none = true
valid_model (some m) = not (is_blank m || ltb 200 (byte_len m))

unfoldable pub set_session_model : Uid → Option String → Tx Session
set_session_model session model = do
  require (valid_model model) (invalid_data invalid_model)
  known ← gets (is_session session)
  require known (not_found Kind.session session)
  record_applied session system_actor (JournalEvent.session_model_changed model) none
  select_session session

-- `current_leaf.as_ref() != expected_leaf`
abbrev pub same_leaf : Option Uid → Option Uid → Bool
same_leaf none none = true
same_leaf (some a) (some b) = a == b
same_leaf _ _ = false

unfoldable pub expect_leaf : Uid → Option Uid → Tx Unit
expect_leaf session expected = do
  row ← select_session session
  require (same_leaf row.leaf_entry_id expected) (leaf_conflict expected row.leaf_entry_id)

unfoldable pub validate_appended_message : MessageContent → Value → MessageSource → Tx Unit
validate_appended_message content metadata source = do
  require (not (byte_len source.id == 0 || ltb 256 (byte_len source.id)))
      (invalid_data invalid_source_id)
  size ← gets (λ db. db.outside.value_bytes metadata)
  bytes ← require_some size (invalid_data serialization)
  require (not (ltb (64 * 1024) bytes)) (invalid_data Invalid.metadata_too_large)
  require (not (is_empty_text content)) (invalid_data Invalid.empty_text)
  validate_session_item (SessionEntryPayload.user_message content metadata source)

abbrev pub is_user : MessageRole → Bool
is_user MessageRole.user = true
is_user _ = false

-- A source by itself, as a harness or a host is told of.
abbrev pub default_source : SourceKind → MessageSource
default_source kind = record { kind = kind; id = "default"; channel_origin = none }

abbrev pub told : SessionEntry → MessageRole → MessageContent → Value → MessageSource → Message
told entry role content metadata source = record {
  id = entry.id;
  session_id = entry.session_id;
  sequence = entry.sequence;
  role = role;
  content = content;
  metadata = metadata;
  source = source;
  created_at = entry.created_at;
}

-- The message of an entry with that payload.
unfoldable pub payload_message : SessionEntry → SessionEntryPayload → Tx Message
unfolding response_text
payload_message entry (SessionEntryPayload.user_message content metadata source) =
    pure (told entry MessageRole.user content metadata source)
payload_message entry (SessionEntryPayload.assistant_response turn response) = pure (
    told entry MessageRole.assistant (MessageContent.text (response_text response.blocks))
      Value.null (default_source SourceKind.harness))
payload_message entry (SessionEntryPayload.tool_result turn r) = pure (
    told entry MessageRole.tool
      (MessageContent.tool_result r.call_id r.tool r.result r.is_error r.uncertain) Value.null
      (default_source SourceKind.host))
payload_message entry _ = fail (invalid_data not_a_message)

unfoldable pub message_from_entry : SessionEntry → Tx Message
unfolding payload_message
message_from_entry entry = payload_message entry entry.payload

unfoldable pub append_message_checked :
    Uid → Option Uid → MessageRole → MessageContent → Value → MessageSource → Tx Message
unfolding from_source
append_message_checked session expected role content metadata source = do
  require (is_user role) (invalid_data not_a_user_message)
  validate_appended_message content metadata source
  expect_leaf session expected
  entry_id ← new_id
  record_applied session (from_source source)
      (JournalEvent.user_message_appended entry_id content metadata source) none
  entry ← select_session_entry session entry_id
  message_from_entry entry

unfoldable pub append_message :
    Uid → MessageRole → MessageContent → Value → MessageSource → Tx Message
append_message session role content metadata source = do
  row ← select_session session
  append_message_checked session row.leaf_entry_id role content metadata source

-- An entry that may be the leaf of the Session.
unfoldable pub may_lead : Uid → Option Uid → Db → Bool
may_lead session none db = true
may_lead session (some leaf) db =
    any (λ e. e.id == leaf && e.session_id == session && e.contextual) db.entries

unfoldable pub set_session_leaf_checked : Uid → Option Uid → Option Uid → Tx Session
set_session_leaf_checked session expected leaf = do
  expect_leaf session expected
  allowed ← gets (may_lead session leaf)
  require allowed (invalid_data leaf_not_contextual)
  record_applied session system_actor (JournalEvent.session_leaf_changed leaf) none
  select_session session
