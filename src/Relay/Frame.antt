-- ===== src/Relay/Frame.antt =====
-- crates/mews-relay/src/lib.rs: peer IDs, identities, frames and their limits.
use Prim.Native.Char.{code}
use mews.Prelude.{
  byte_len, ℕ, ◌*◌, ltb, leb, ◌==◌, String, Bool, true, not, ◌||◌, ◌&&◌, Option, none, some, List,
  length, if◌then◌else◌,
}
use mews.Protocol.Values.{Uid, Time}

pub data RelayError : Type 0 where
  unauthorized invalid_signature invalid_peer_id invalid_stream_id : RelayError
  source_mismatch connection_replaced destination_offline destination_busy : RelayError
  frame_too_large : ℕ → ℕ → RelayError

-- MAX_CIPHERTEXT_BYTES
abbrev pub max_ciphertext_bytes : ℕ
max_ciphertext_bytes = 64 * 1024

is_peer_char : ℕ → Bool
is_peer_char c =
    (leb 48 c && leb c 57)
    || (leb 65 c && leb c 90)
    || (leb 97 c && leb c 122)
    || c == 45
    || c == 95
    || c == 46
    || c == 58

all_peer_chars : String → Bool
unfolding is_peer_char
all_peer_chars String.[] = true
all_peer_chars (String.◌∷◌ c s) = is_peer_char (code c) && all_peer_chars s

-- RelayPeerId::new, with the reason it refuses a text.
unfoldable pub check_peer_id : String → Option RelayError
unfolding byte_len all_peer_chars
check_peer_id value =
    if byte_len value == 0 || ltb 128 (byte_len value) || not (all_peer_chars value)
    then some invalid_peer_id
    else none

pub record RelayAdmission : Type 0 where
  pub installation_id : Uid
  pub peer_id : String
  pub peer_public_key : String
  pub authority_public_key : String
  pub expires_at : Time
  pub signature : String

pub record RelayIdentity : Type 0 where
  pub installation_id : Uid
  pub peer_id : String
  pub public_key : String
  pub authority_public_key : String
  pub admission : Option RelayAdmission

pub record RelayFrame : Type 0 where
  pub installation_id : Uid
  pub source_id : String
  pub destination_id : String
  pub subject_id : String
  pub sequence : ℕ
  pub ciphertext : List ℕ

-- RelayFrame::validate
unfoldable pub validate_frame : RelayFrame → Option RelayError
unfolding byte_len
validate_frame f =
    if byte_len f.subject_id == 0 || ltb 128 (byte_len f.subject_id)
    then some invalid_stream_id
    else if ltb max_ciphertext_bytes (length f.ciphertext)
    then some (frame_too_large (length f.ciphertext) max_ciphertext_bytes)
    else none
