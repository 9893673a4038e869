-- ===== src/Store/Journal/Text.antt =====
-- crates/mews-store/src/events.rs: the form of a request hash, and subjects as keys of a set.
use Prim.Native.Char.{code}
use Prim.Native.String
use text.Mathlib.Text.{◌==◌ as str_eq}
use mathlib.Core.Logic.{ite}
use mews.Prelude.{is_blank, ℕ, leb, String, Bool, true, false, ◌==◌, ◌&&◌, ◌||◌}
use mews.Protocol.Events.Validate.{IdKind-discrete, JournalSubjectType-discrete}
use mews.Protocol.Events.Journal.{JournalSubjectType}
use mews.Protocol.Values.{IdText, id_text, malformed}

-- u8::is_ascii_hexdigit
is_hexdigit : ℕ → Bool
is_hexdigit c =
    (leb b'0' c && leb c b'9') || (leb b'a' c && leb c b'f') || (leb b'A' c && leb c b'F')

all_hex : String → Bool
unfolding is_hexdigit
all_hex String.[] = true
all_hex (String.◌∷◌ c s) = is_hexdigit (code c) && all_hex s

-- A text of 64 hexadecimal digits.
unfoldable pub is_request_hash : String → Bool
unfolding all_hex
is_request_hash s = String.len s == 64 && all_hex s

unfoldable pub blank_id : IdText → Bool
unfolding is_blank
blank_id (id_text kind i) = false
blank_id (malformed s) = is_blank s

unfoldable pub same_id_text : IdText → IdText → Bool
same_id_text (id_text k i) (id_text l j) = ite (IdKind-discrete k l) (i == j) false
same_id_text (malformed s) (malformed t) = str_eq s t
same_id_text _ _ = false

unfoldable pub same_subject : JournalSubjectType → IdText → JournalSubjectType → IdText → Bool
unfolding same_id_text
same_subject k i l j = ite (JournalSubjectType-discrete k l) (same_id_text i j) false
