-- ===== src/Store/Session/Transcript.antt =====
-- crates/mews-store/src/sessions.rs: how the messages of a Turn are recorded and told to clients.
use Prim.Native.String.{◌++◌ as append_text}
use mews.Prelude.{String, true, false, not, none, some, List, [], ◌∷◌, byte_len, ◌==◌}
use mews.Protocol.Events.Client.{ClientEventKind}
use mews.Protocol.Events.Journal.{EventActorKind, JournalEntry}
use mews.Protocol.Messages.{
  AssistantResponse, AssistantResponseBlock, Message, MessageContent, MessageRole, MessageSource,
  SessionEntry, SessionEntryPayload, SourceKind, ToolCall, ToolResult,
}
use mews.Protocol.Values.{Uid, Value}
use mews.Store.Session.Entries.{append_session_entry}
use mews.Store.Session.Signals.{append_durable_client_event}
use mews.Store.Tx.{Tx, ◌>>=◌, when}

abbrev pub source_kind : EventActorKind → SourceKind
source_kind EventActorKind.client = SourceKind.client
source_kind EventActorKind.channel = SourceKind.channel
source_kind EventActorKind.harness = SourceKind.harness
source_kind _ = SourceKind.host

unfoldable pub message_source_for_event : JournalEntry → MessageSource
message_source_for_event event = record {
  kind = source_kind event.actor.kind;
  id = elim event.actor.id [ none ↦ "system" | some i ↦ i ];
  channel_origin = none;
}

-- The text blocks, one after another.
unfoldable pub response_text : List AssistantResponseBlock → String
response_text [] = ""
response_text (AssistantResponseBlock.text t ∷ bs) = append_text t (response_text bs)
response_text (AssistantResponseBlock.reasoning _ _ ∷ bs) = response_text bs
response_text (AssistantResponseBlock.tool_call _ _ _ _ ∷ bs) = response_text bs
response_text (AssistantResponseBlock.opaque_state _ _ _ ∷ bs) = response_text bs

-- The message of an entry that an event wrote.
unfoldable pub message_of : JournalEntry → SessionEntry → MessageRole → MessageContent → Message
unfolding message_source_for_event
message_of event entry role content = record {
  id = entry.id;
  session_id = entry.session_id;
  sequence = entry.sequence;
  role = role;
  content = content;
  metadata = Value.null;
  source = message_source_for_event event;
  created_at = entry.created_at;
}

unfoldable pub record_response : JournalEntry → Uid → Uid → AssistantResponse → Tx Unit
unfolding response_text message_of
record_response event turn_id entry_id response = do
  entry ←
      append_session_entry event entry_id (SessionEntryPayload.assistant_response turn_id response)
        "assistant_response" true
  let text = response_text response.blocks
  when (not (byte_len text == 0)) (
      append_durable_client_event event (some entry_id) (
        ClientEventKind.assistant_message turn_id
          (message_of event entry MessageRole.assistant (MessageContent.text text))))

unfoldable pub record_tool_call : JournalEntry → Uid → Uid → ToolCall → Tx Unit
unfolding message_of
record_tool_call event turn_id entry_id call = do
  entry ←
      append_session_entry event entry_id (SessionEntryPayload.tool_started turn_id call)
        "tool_started" false
  append_durable_client_event event (some entry_id) (
      ClientEventKind.tool_started turn_id (
        message_of event entry MessageRole.assistant
          (MessageContent.tool_call call.call_id call.tool call.arguments call.thought_signature)))

unfoldable pub record_tool_result : JournalEntry → Uid → Uid → ToolResult → Tx Unit
unfolding message_of
record_tool_result event turn_id entry_id result = do
  entry ←
      append_session_entry event entry_id (SessionEntryPayload.tool_result turn_id result)
        "tool_result" true
  append_durable_client_event event (some entry_id) (
      ClientEventKind.tool_completed turn_id (
        message_of event entry MessageRole.tool (
          MessageContent.tool_result result.call_id result.tool result.result result.is_error
            result.uncertain)))
