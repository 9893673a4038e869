-- ===== src/Protocol/Messages.antt =====
-- crates/mews-protocol/src/domain/messages.rs: messages, timeline entries and what they hold.
pub mod History
pub mod Input
mod Examples
use mews.Prelude.{ℕ, String, Bool, Option, List}
use mews.Protocol.Values.{Uid, Time, Value}

pub data MessageRole : Type 0 where
  user assistant tool : MessageRole

pub data ReasoningVisibility : Type 0 where
  visible redacted omitted : ReasoningVisibility

pub data SourceKind : Type 0 where
  client channel harness host : SourceKind

pub record ChannelOrigin : Type 0 where
  pub consumer_id : Uid
  pub conversation : String

pub record MessageSource : Type 0 where
  pub kind : SourceKind
  pub id : String
  pub channel_origin : Option ChannelOrigin

pub data MessageContent : Type 0 where
  text : String → MessageContent
  tool_call : String → String → Value → Option String → MessageContent
  tool_result : String → String → Value → Bool → Bool → MessageContent
  provider_state : String → String → Value → MessageContent

pub record Message : Type 0 where
  pub id : Uid
  pub session_id : Uid
  pub sequence : ℕ
  pub role : MessageRole
  pub content : MessageContent
  pub metadata : Value
  pub source : MessageSource
  pub created_at : Time

pub record HarnessProvenance : Type 0 where
  pub name : String
  pub definition_hash : String
  pub version : Option String

pub record ToolCall : Type 0 where
  pub call_id : String
  pub tool : String
  pub arguments : Value
  pub thought_signature : Option String

pub record ToolResult : Type 0 where
  pub call_id : String
  pub tool : String
  pub result : Value
  pub is_error : Bool
  pub uncertain : Bool

pub data ReasoningProvenance : Type 0 where
  provider : String → String → ReasoningProvenance
  harness : String → Option String → ReasoningProvenance

pub data AssistantResponseBlock : Type 0 where
  text : String → AssistantResponseBlock
  reasoning : String → Option String → AssistantResponseBlock
  tool_call : String → String → Value → Option String → AssistantResponseBlock
  opaque_state : String → String → Value → AssistantResponseBlock

pub record ModelUsage : Type 0 where
  pub input_tokens : ℕ
  pub output_tokens : ℕ
  pub cached_input_tokens : ℕ
  pub reasoning_tokens : ℕ

pub record AssistantResponse : Type 0 where
  pub provider : String
  pub model : String
  pub api : String
  pub response_id : Option String
  pub blocks : List AssistantResponseBlock
  pub usage : Option ModelUsage
  pub stop_reason : Option String

pub data SessionEntryPayload : Type 0 where
  user_message : MessageContent → Value → MessageSource → SessionEntryPayload
  turn_started : Uid → HarnessProvenance → SessionEntryPayload
  assistant_response : Uid → AssistantResponse → SessionEntryPayload
  tool_started : Uid → ToolCall → SessionEntryPayload
  tool_result : Uid → ToolResult → SessionEntryPayload
  reasoning : Uid → String → ReasoningVisibility → ReasoningProvenance → SessionEntryPayload
  turn_completed : Uid → Option String → SessionEntryPayload
  turn_failed : Uid → String → SessionEntryPayload
  turn_cancelled : Uid → SessionEntryPayload
  context_compaction : String → Uid → ℕ → SessionEntryPayload
  harness_observation : Uid → Option String → String → Value → SessionEntryPayload

pub record SessionEntry : Type 0 where
  pub id : Uid
  pub session_id : Uid
  pub sequence : ℕ
  pub parent_id : Option Uid
  pub payload : SessionEntryPayload
  pub created_at : Time
