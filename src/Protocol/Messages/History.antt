-- ===== src/Protocol/Messages/History.antt =====
-- crates/mews-protocol/src/domain/messages.rs: portable_history.
use Prim.Native.String.{◌++◌ as join}
use mathlib.Core.List.{append_assoc}
use mews.Prelude.{none, List, [], ◌∷◌, ◌++◌, map, All, All-append, ◌≡◌, refl, ap, sym, ◌∙◌}
use mews.Protocol.Messages.{
  MessageRole, MessageContent, ReasoningProvenance, AssistantResponseBlock, SessionEntry,
  SessionEntryPayload,
}
use mews.Protocol.Values.{Value}

pub record PortableHistoryItem : Type 0 where
  pub role : MessageRole
  pub content : MessageContent

user_item : MessageContent → List PortableHistoryItem
user_item (MessageContent.text t) =
    record { role = MessageRole.user; content = MessageContent.text t } ∷ []
user_item _ = []

unfoldable pub block_items : AssistantResponseBlock → List PortableHistoryItem
block_items (AssistantResponseBlock.text t) =
    record { role = MessageRole.assistant; content = MessageContent.text t } ∷ []
block_items (AssistantResponseBlock.tool_call id tool arguments signature) =
    record {
      role = MessageRole.assistant;
      content = MessageContent.tool_call id tool arguments none;
    }
    ∷ []
block_items (AssistantResponseBlock.reasoning _ _) = []
block_items (AssistantResponseBlock.opaque_state _ _ _) = []

blocks_items : List AssistantResponseBlock → List PortableHistoryItem
unfolding block_items
blocks_items [] = []
blocks_items (b ∷ bs) = block_items b ++ blocks_items bs

-- What one entry adds.
unfoldable pub payload_items : SessionEntryPayload → List PortableHistoryItem
unfolding user_item blocks_items
payload_items (SessionEntryPayload.user_message content _ _) = user_item content
payload_items (SessionEntryPayload.assistant_response _ response) = blocks_items response.blocks
payload_items (SessionEntryPayload.tool_result _ r) =
    record {
      role = MessageRole.tool;
      content = MessageContent.tool_result r.call_id r.tool r.result r.is_error r.uncertain;
    }
    ∷ []
payload_items (SessionEntryPayload.context_compaction summary _ _) =
    record {
      role = MessageRole.user;
      content = MessageContent.text (join "[Earlier context summary]\n" summary);
    }
    ∷ []
payload_items _ = []

unfoldable pub portable_history : List SessionEntry → List PortableHistoryItem
unfolding payload_items
portable_history [] = []
portable_history (e ∷ es) = payload_items e.payload ++ portable_history es

-- An item without provider state or signature.
abbrev pub IsPortable : PortableHistoryItem → Type 0
IsPortable item = elim item.content [
  | MessageContent.text _ ↦ Unit {0}
  | MessageContent.tool_call _ _ _ signature ↦ signature ≡ none
  | MessageContent.tool_result _ _ _ _ _ ↦ Unit
  | MessageContent.provider_state _ _ _ ↦ ⊥
]

-- A content, a block and an entry without their private parts: provider state, signatures, reasoning,
-- metadata, response IDs, usage, and what a harness has observed, where it keeps its own state.
abbrev pub public_content : MessageContent → MessageContent
public_content (MessageContent.provider_state _ _ _) =
    MessageContent.provider_state "" "" Value.null
public_content (MessageContent.tool_call id tool arguments _) =
    MessageContent.tool_call id tool arguments none
public_content c = c

abbrev pub public_block : AssistantResponseBlock → AssistantResponseBlock
public_block (AssistantResponseBlock.reasoning _ _) = AssistantResponseBlock.reasoning "" none
public_block (AssistantResponseBlock.tool_call id tool arguments _) =
    AssistantResponseBlock.tool_call id tool arguments none
public_block (AssistantResponseBlock.opaque_state _ _ _) =
    AssistantResponseBlock.opaque_state "" "" Value.null
public_block b = b

abbrev pub public_payload : SessionEntryPayload → SessionEntryPayload
public_payload (SessionEntryPayload.user_message content _ source) =
    SessionEntryPayload.user_message (public_content content) Value.null source
public_payload (SessionEntryPayload.assistant_response turn r) =
    SessionEntryPayload.assistant_response turn
      (record r { response_id = none; blocks = map public_block r.blocks; usage = none })
public_payload (SessionEntryPayload.tool_started turn call) =
    SessionEntryPayload.tool_started turn (record call { thought_signature = none })
public_payload (SessionEntryPayload.reasoning turn _ visibility _) =
    SessionEntryPayload.reasoning turn "" visibility (ReasoningProvenance.harness "" none)
public_payload (SessionEntryPayload.harness_observation turn _ _ _) =
    SessionEntryPayload.harness_observation turn none "" Value.null
public_payload p = p

abbrev pub public_part : SessionEntry → SessionEntry
public_part e = record e { payload = public_payload e.payload }

blocks_items-IsPortable : (bs : List AssistantResponseBlock) → All IsPortable (blocks_items bs)
unfolding blocks_items block_items
blocks_items-IsPortable [] = tt
blocks_items-IsPortable (AssistantResponseBlock.text t ∷ bs) = (tt, blocks_items-IsPortable bs)
blocks_items-IsPortable (AssistantResponseBlock.tool_call _ _ _ _ ∷ bs) =
    (refl, blocks_items-IsPortable bs)
blocks_items-IsPortable (AssistantResponseBlock.reasoning _ _ ∷ bs) = blocks_items-IsPortable bs
blocks_items-IsPortable (AssistantResponseBlock.opaque_state _ _ _ ∷ bs) =
    blocks_items-IsPortable bs

user_item-IsPortable : (c : MessageContent) → All IsPortable (user_item c)
unfolding user_item
user_item-IsPortable (MessageContent.text t) = (tt, tt)
user_item-IsPortable (MessageContent.tool_call _ _ _ _) = tt
user_item-IsPortable (MessageContent.tool_result _ _ _ _ _) = tt
user_item-IsPortable (MessageContent.provider_state _ _ _) = tt

payload_items-IsPortable : (p : SessionEntryPayload) → All IsPortable (payload_items p)
unfolding payload_items
payload_items-IsPortable (SessionEntryPayload.user_message c _ _) = user_item-IsPortable c
payload_items-IsPortable (SessionEntryPayload.assistant_response _ r) =
    blocks_items-IsPortable r.blocks
payload_items-IsPortable (SessionEntryPayload.tool_result _ r) = (tt, tt)
payload_items-IsPortable (SessionEntryPayload.context_compaction _ _ _) = (tt, tt)
payload_items-IsPortable _ = tt

blocks_items-public :
    (bs : List AssistantResponseBlock) → blocks_items (map public_block bs) ≡ blocks_items bs
unfolding blocks_items block_items
blocks_items-public [] = refl
blocks_items-public (AssistantResponseBlock.text t ∷ bs) =
    ap (◌++◌ (block_items (AssistantResponseBlock.text t))) (blocks_items-public bs)
blocks_items-public (AssistantResponseBlock.tool_call i t a s ∷ bs) =
    ap (◌++◌ (block_items (AssistantResponseBlock.tool_call i t a none))) (blocks_items-public bs)
blocks_items-public (AssistantResponseBlock.reasoning _ _ ∷ bs) = blocks_items-public bs
blocks_items-public (AssistantResponseBlock.opaque_state _ _ _ ∷ bs) = blocks_items-public bs

user_item-public : (c : MessageContent) → user_item (public_content c) ≡ user_item c
unfolding user_item
user_item-public (MessageContent.text _) = refl
user_item-public (MessageContent.tool_call _ _ _ _) = refl
user_item-public (MessageContent.tool_result _ _ _ _ _) = refl
user_item-public (MessageContent.provider_state _ _ _) = refl

payload_items-public :
    (p : SessionEntryPayload) → payload_items (public_payload p) ≡ payload_items p
unfolding payload_items
payload_items-public (SessionEntryPayload.assistant_response _ r) = blocks_items-public r.blocks
payload_items-public (SessionEntryPayload.user_message c _ _) = user_item-public c
payload_items-public (SessionEntryPayload.tool_started _ _) = refl
payload_items-public (SessionEntryPayload.harness_observation _ _ _ _) = refl
payload_items-public (SessionEntryPayload.reasoning _ _ _ _) = refl
payload_items-public _ = refl

history-IsPortable : (es : List SessionEntry) → All IsPortable (portable_history es)
unfolding portable_history
history-IsPortable [] = tt
history-IsPortable (e ∷ es) =
    All-append IsPortable _ _ (payload_items-IsPortable e.payload) (history-IsPortable es)

history-public :
    (es : List SessionEntry) → portable_history (map public_part es) ≡ portable_history es
unfolding portable_history
history-public [] = refl
history-public (e ∷ es) = cc (payload_items-public e.payload, history-public es)

history-append :
    (xs ys : List SessionEntry)
    → portable_history (xs ++ ys) ≡ portable_history xs ++ portable_history ys
unfolding portable_history
history-append [] ys = refl
history-append (e ∷ xs) ys =
    ap (λ r. payload_items e.payload ++ r) (history-append xs ys)
    ∙ sym (append_assoc (payload_items e.payload) (portable_history xs) (portable_history ys))

-- The portable items of a history have no provider state and no signature. They are the same for the
-- history with these parts erased: the signatures of tool calls, provider state, opaque blocks,
-- reasoning and its provenance, response IDs, usage, the metadata of messages, and the Session,
-- kind and data of harness observations. The items of a longer history only add to those of its
-- beginning.
pub portable_history_lem :
    (xs ys : List SessionEntry)
    → All IsPortable (portable_history xs)
      × (portable_history (map public_part xs) ≡ portable_history xs)
      × (portable_history (xs ++ ys) ≡ portable_history xs ++ portable_history ys)
portable_history_lem xs ys = (history-IsPortable xs, history-public xs, history-append xs ys)
