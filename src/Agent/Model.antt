-- ===== src/Agent/Model.antt =====
-- crates/mews-agent/src/{model,capabilities}.rs: model requests, tool calls and their results.
use mews.Prelude.{ℕ, String, Bool, true, false, Option, List}
use mews.Protocol.Turns.{ReasoningEffort, ToolDefinition}
use mews.Protocol.Values.{Value}

pub data MessageRole : Type 0 where
  user assistant tool : MessageRole

pub data MessageContent : Type 0 where
  text : String → MessageContent
  tool_call : String → String → Value → Option String → MessageContent
  tool_result : String → String → Value → Bool → Bool → MessageContent
  provider_state : String → String → Value → MessageContent

pub record ModelMessage : Type 0 where
  pub role : MessageRole
  pub content : MessageContent

pub record ResponseContinuation : Type 0 where
  pub response_id : String
  pub provider : String
  pub model : String
  pub api : String
  pub fallback_messages : List ModelMessage

pub record ModelRequest : Type 0 where
  pub model : String
  pub reasoning : Option ReasoningEffort
  pub system : String
  pub messages : List ModelMessage
  pub tools : List ToolDefinition
  pub continuation : Option ResponseContinuation

pub record ToolCall : Type 0 where
  pub id : String
  pub name : String
  pub arguments : Value
  pub thought_signature : Option String
  pub catalog_generation : ℕ

pub record ToolResult : Type 0 where
  pub value : Value
  pub is_error : Bool
  pub uncertain : Bool
  pub terminate : Bool

abbrev pub is_user : MessageRole → Bool
is_user MessageRole.user = true
is_user _ = false

-- ToolResult::success, error and uncertain; the reason is the text that is shown.
unfoldable pub success_result : Value → ToolResult
success_result v = record { value = v; is_error = false; uncertain = false; terminate = false }

unfoldable pub error_result : String → ToolResult
error_result e = record {
  value = Value.string e;
  is_error = true;
  uncertain = false;
  terminate = false;
}

unfoldable pub uncertain_result : String → ToolResult
uncertain_result e = record {
  value = Value.string e;
  is_error = true;
  uncertain = true;
  terminate = false;
}
