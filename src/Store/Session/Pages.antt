-- ===== src/Store/Session/Pages.antt =====
-- crates/mews-store/src/sessions.rs: the pages of a list with sequence numbers, page_entries, and of
-- the entries of a Session, session_entries_page.
pub mod Rising
pub mod Laws
use mews.Prelude.{
  ℕ, zero, suc, min, max, ◌+◌, ◌-◌, ◌*◌, Bool, true, false, Option, none, some, List, [], ◌∷◌, ◌==◌,
  ◌&&◌, if◌then◌else◌, keep, map, ltb, saturating_add,
}
use mews.Protocol.Messages.{SessionEntry}
use mews.Protocol.Values.{Uid}
use mews.Store.Result.{
  Result, ok, err, ◌>>=◌, ok_or, invalid_data, serialization, stored_item_too_large,
}
use mews.Store.Tables.{Db}

-- MAX_SESSION_PAGE_PAYLOAD_BYTES
abbrev pub max_session_page_payload_bytes : ℕ
max_session_page_payload_bytes = 1024 * 1024 - 256 * 1024

abbrev pub has_some : Option ℕ → Bool
has_some none = false
has_some (some n) = true

-- `after.is_none_or(|after| sequence > after)`
abbrev pub later : Option ℕ → ℕ → Bool
later none n = true
later (some after) n = ltb after n

-- `limit.clamp(1, 500)`
abbrev pub page_limit : ℕ → ℕ
page_limit limit = min 500 (max 1 limit)

module _ {T : Type 0} (sequence : T → ℕ) (bytes : T → Option ℕ) where
  -- The loop, and the look at the next item behind it: the room left in the page, the number of the
  -- item last put in it and the bytes so far.
  unfoldable pub fill : ℕ → Option ℕ → ℕ → List T → Result (List T × Option ℕ)
  fill room last payload [] = ok ([], none)
  fill zero last payload (e ∷ es) = ok ([], last)
  fill (suc room) last payload (e ∷ es) = ok_or (bytes e) (invalid_data serialization) >>= λ n.
      (let more = fill room (some (sequence e)) (payload + n) es in
        if ltb max_session_page_payload_bytes n
        then err (invalid_data stored_item_too_large)
        else if has_some last && ltb max_session_page_payload_bytes (saturating_add payload n)
        then ok ([], last)
        else (more >>= λ r. ok (e ∷ r.0, r.1)))

  unfoldable pub page_entries : List T → Option ℕ → ℕ → Result (List T × Option ℕ)
  unfolding fill
  page_entries entries after limit =
      fill (page_limit limit) none 0 (keep (λ e. later after (sequence e)) entries)

-- The rows of a Session come in the order of their numbers, in which they were inserted.
unfoldable pub session_entries : Uid → Db → List SessionEntry
session_entries session db = map (λ e. e.entry) (keep (λ e. e.session_id == session) db.entries)

unfoldable pub session_entries_page :
    (SessionEntry → Option ℕ) → Uid → Option ℕ → ℕ → Db → Result (List SessionEntry × Option ℕ)
unfolding session_entries page_entries
session_entries_page bytes session after limit db =
    page_entries (λ e. e.sequence) bytes (session_entries session db) after limit
