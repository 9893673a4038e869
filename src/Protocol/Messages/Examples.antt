-- ===== src/Protocol/Messages/Examples.antt =====
-- The portable history at a response with a signed tool call and opaque state, and a turn input.
use mews.Prelude.{
  List, ◌*◌, ◌<◌, ◌≤◌, byte_len, true, false, none, some, [], ◌∷◌, ◌++◌, map, All, ◌≡◌, ◌↔◌,
}
use mews.Protocol.Messages.{
  MessageContent, MessageSource, SourceKind, AssistantResponseBlock, SessionEntry,
  SessionEntryPayload,
}
use mews.Protocol.Messages.Input.{
  validate_turn_input, validate_turn_input_iff, is_ingress, is_empty_text, Fits,
  max_session_item_bytes,
}
use mews.Protocol.Messages.History.{portable_history, portable_history_lem, IsPortable, public_part}
use mews.Protocol.Values.{Value}

abbrev response : SessionEntry
response = record {
  id = 1;
  session_id = 2;
  sequence = 1;
  parent_id = none;
  payload = SessionEntryPayload.assistant_response 3 (record {
    provider = "p";
    model = "m";
    api = "a";
    response_id = some "r";
    blocks =
        AssistantResponseBlock.opaque_state "p" "k" (Value.string "secret")
        ∷ AssistantResponseBlock.tool_call "c" "read" Value.null (some "signature")
        ∷ [];
    usage = none;
    stop_reason = none;
  });
  created_at = 0;
}

abbrev observation : SessionEntry
observation = record response {
  payload =
      SessionEntryPayload.harness_observation 3 (some "s") "provider_state" (Value.string "secret");
}

abbrev history : List SessionEntry
history = response ∷ observation ∷ []

portable_history_lem_example :
    All IsPortable (portable_history history)
    × (portable_history (map public_part history) ≡ portable_history history)
    × (portable_history (history ++ history) ≡ portable_history history ++ portable_history history)
portable_history_lem_example = portable_history_lem history history

abbrev source : MessageSource
source = record { kind = SourceKind.client; id = "cli"; channel_origin = none }

validate_turn_input_iff_example :
    (validate_turn_input
        (λ v. some 4)
        (λ p. some 90)
        "key"
        (MessageContent.text "hi")
        Value.null
        source
      ≡ none)
    ↔ ((0 < byte_len "key")
        × (byte_len "key" ≤ 200)
        × (is_ingress source.kind ≡ true)
        × (0 < byte_len source.id)
        × (byte_len source.id ≤ 256)
        × Fits (λ v. some 4) (λ p. some 90) (64 * 1024) (some 4)
        × (is_empty_text (MessageContent.text "hi") ≡ false)
        × Fits (λ v. some 4) (λ p. some 90) max_session_item_bytes (some 90))
validate_turn_input_iff_example =
    validate_turn_input_iff (λ v. some 4) (λ p. some 90) "key" (MessageContent.text "hi") Value.null
      source
