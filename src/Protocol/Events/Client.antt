-- ===== src/Protocol/Events/Client.antt =====
-- crates/mews-protocol/src/domain/events.rs, the delivery side: client events, live signals, consumers.
use mews.Prelude.{ℕ, String, Bool, true, false, Option, some, List}
use mews.Protocol.Messages.{Message, ChannelOrigin}
use mews.Protocol.Values.{Uid, Time, Value}

pub record ToolActivity : Type 0 where
  pub call_id : String
  pub title : String
  pub kind : Option String
  pub status : Option String
  pub input : Value

pub data RuntimeSignalPayload : Type 0 where
  assistant_delta : String → Option String → RuntimeSignalPayload
  reasoning_delta : String → Option String → RuntimeSignalPayload
  tool_activity : ToolActivity → RuntimeSignalPayload

pub record RuntimeSignal : Type 0 where
  pub id : Uid
  pub session_id : Uid
  pub turn_id : Uid
  pub channel_origin : Option ChannelOrigin
  pub emitted_at : Time
  pub payload : RuntimeSignalPayload

pub data ClientEventKind : Type 0 where
  turn_started : Uid → ClientEventKind
  assistant_delta : Uid → String → Option String → ClientEventKind
  reasoning_delta : Uid → String → Option String → ClientEventKind
  tool_activity : Uid → ToolActivity → ClientEventKind
  assistant_message : Uid → Message → ClientEventKind
  tool_started : Uid → Message → ClientEventKind
  tool_completed : Uid → Message → ClientEventKind
  turn_completed : Uid → ClientEventKind
  turn_failed : Uid → String → ClientEventKind
  turn_cancelled : Uid → ClientEventKind

unfoldable pub is_transient : ClientEventKind → Bool
is_transient (ClientEventKind.assistant_delta _ _ _) = true
is_transient (ClientEventKind.reasoning_delta _ _ _) = true
is_transient (ClientEventKind.tool_activity _ _) = true
is_transient _ = false

unfoldable pub turn_id : ClientEventKind → Option Uid
turn_id (ClientEventKind.turn_started t) = some t
turn_id (ClientEventKind.assistant_delta t _ _) = some t
turn_id (ClientEventKind.reasoning_delta t _ _) = some t
turn_id (ClientEventKind.tool_activity t _) = some t
turn_id (ClientEventKind.assistant_message t _) = some t
turn_id (ClientEventKind.tool_started t _) = some t
turn_id (ClientEventKind.tool_completed t _) = some t
turn_id (ClientEventKind.turn_completed t) = some t
turn_id (ClientEventKind.turn_failed t _) = some t
turn_id (ClientEventKind.turn_cancelled t) = some t

pub record ClientEvent : Type 0 where
  pub id : Uid
  pub sequence : ℕ
  pub session_id : Uid
  pub channel_origin : Option ChannelOrigin
  pub kind : ClientEventKind
  pub created_at : Time

pub data ConsumerKind : Type 0 where
  durable ephemeral : ConsumerKind

pub record EventBatch : Type 0 where
  pub events : List ClientEvent
  pub checkpoint : ℕ
  pub advanced : Bool
