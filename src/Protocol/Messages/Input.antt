-- ===== src/Protocol/Messages/Input.antt =====
-- crates/mews-protocol/src/domain/messages.rs: validate_turn_input. The sizes of the serialized
-- metadata and entry are parameters; `none` is a serialization error.
use mews.Prelude.{
  ℕ, ◌*◌, ltb, ◌==◌, ◌<◌, ◌≤◌, byte_len, is_blank, String, Bool, true, false, not, ◌||◌, Option,
  none, some, ◌≡◌, ◌↔◌, arith, if◌then◌else◌,
}
use mews.Protocol.Messages.{MessageContent, MessageSource, SourceKind, SessionEntryPayload}
use mews.Protocol.Values.{Value}

-- crates/mews-protocol/src/hub.rs: MAX_SESSION_ITEM_BYTES
abbrev pub max_session_item_bytes : ℕ
max_session_item_bytes = 700 * 1024

-- One constructor for each message.
pub data TurnInputValidationError : Type 0 where
  invalid_key invalid_source serialization metadata_too_large : TurnInputValidationError
  empty_text item_too_large : TurnInputValidationError

abbrev pub is_ingress : SourceKind → Bool
is_ingress SourceKind.client = true
is_ingress SourceKind.channel = true
is_ingress _ = false

abbrev pub is_empty_text : MessageContent → Bool
is_empty_text (MessageContent.text t) = is_blank t
is_empty_text _ = false

module _ (metadata_bytes : Value → Option ℕ) (entry_bytes : SessionEntryPayload → Option ℕ) where
  within : ℕ → TurnInputValidationError → Option ℕ → Option TurnInputValidationError
  within limit e none = some serialization
  within limit e (some n) = if ltb limit n then some e else none

  unfoldable pub validate_turn_input :
      String → MessageContent → Value → MessageSource → Option TurnInputValidationError
  unfolding within
  validate_turn_input key content metadata source =
      let large_metadata = within (64 * 1024) metadata_too_large (metadata_bytes metadata) in
      if byte_len key == 0 || ltb 200 (byte_len key)
      then some invalid_key
      else if not (is_ingress source.kind)
          || byte_len source.id == 0
          || ltb 256 (byte_len source.id)
      then some invalid_source
      else elim large_metadata [
        | some e ↦ some e
        | none ↦
            if is_empty_text content
            then some empty_text
            else within max_session_item_bytes item_too_large
                (entry_bytes (SessionEntryPayload.user_message content metadata source))
      ]

  -- The size is known and within the limit.
  abbrev pub Fits : ℕ → Option ℕ → Type 0
  Fits limit none = ⊥
  Fits limit (some n) = n ≤ limit

  within-none :
      (limit : ℕ) (e : TurnInputValidationError) (size : Option ℕ)
      → (within limit e size ≡ none) ↔ Fits limit size
  unfolding within
  within-none limit e none = (λ h. absurd (cc), λ h. absurd h)
  within-none limit e (some n) = ground arith

  checks_iff :
      (k s : ℕ) (ingress blank : Bool) (m i : Option TurnInputValidationError)
      → ((if k == 0 || ltb 200 k
            then some invalid_key
            else if not ingress || s == 0 || ltb 256 s
            then some invalid_source
            else elim m [ some e ↦ some e | none ↦ if blank then some empty_text else i ])
          ≡ none)
        ↔ ((0 < k)
            × (k ≤ 200)
            × (ingress ≡ true)
            × (0 < s)
            × (s ≤ 256)
            × (m ≡ none)
            × (blank ≡ false)
            × (i ≡ none))
  checks_iff k s ingress blank none i = ground arith
  checks_iff k s ingress blank (some e) i = ground arith

  -- Turn input is admitted exactly when its key has between 1 and 200 bytes, its source is a client
  -- or a channel with an ID of 1 to 256 bytes, its metadata serializes to at most 64 KiB, its text,
  -- if it is one, is not blank, and the entry that it becomes serializes to at most 700 KiB.
  pub validate_turn_input_iff :
      (key : String) (content : MessageContent) (metadata : Value) (source : MessageSource)
      → (validate_turn_input key content metadata source ≡ none) ↔ (
          (0 < byte_len key)
          × (byte_len key ≤ 200)
          × (is_ingress source.kind ≡ true)
          × (0 < byte_len source.id)
          × (byte_len source.id ≤ 256)
          × Fits (64 * 1024) (metadata_bytes metadata)
          × (is_empty_text content ≡ false)
          × Fits max_session_item_bytes
              (entry_bytes (SessionEntryPayload.user_message content metadata source)))
  unfolding validate_turn_input
  validate_turn_input_iff key content metadata source =
      let checks =
        checks_iff (byte_len key) (byte_len source.id) (is_ingress source.kind)
          (is_empty_text content) (within (64 * 1024) metadata_too_large (metadata_bytes metadata))
          (within max_session_item_bytes item_too_large
            (entry_bytes (SessionEntryPayload.user_message content metadata source))) in
      let small_metadata = within-none (64 * 1024) metadata_too_large (metadata_bytes metadata) in
      let small_entry =
        within-none max_session_item_bytes item_too_large
          (entry_bytes (SessionEntryPayload.user_message content metadata source)) in
      (
        λ h.
            let (k1, k2, ingress, s1, s2, m, text, i) = checks.0 h in
            (k1, k2, ingress, s1, s2, small_metadata.0 m, text, small_entry.0 i),
        λ h.
            let (k1, k2, ingress, s1, s2, m, text, i) = h in
            checks.1 (k1, k2, ingress, s1, s2, small_metadata.1 m, text, small_entry.1 i),
      )
