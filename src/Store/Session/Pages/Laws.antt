-- ===== src/Store/Session/Pages/Laws.antt =====
-- crates/mews-store/src/sessions.rs: a page of page_entries, and where the next one begins.
use mews.Prelude.{
  ℕ, zero, suc, ◌+◌, ◌<◌, ◌≤◌, ◌≡◌, refl, ap, sym, subst, ◌∙◌, ◌⊎◌, inl, inr, Bool, true, false,
  Option, none, some, List, [], ◌∷◌, ◌++◌, All, All-keep, All-map, keep, map, length, Bool-cases,
  arith, ltb, ◌==◌, ◌&&◌, saturating_add,
}
use mews.Protocol.Messages.{SessionEntry}
use mews.Protocol.Values.{Uid}
use mews.Store.Result.{ok}
use mews.Store.Session.Numbers.{Counts, Numbered}
use mews.Store.Tables.{Db, EntryRow}
use mews.Store.Session.Pages.Rising.{Above, behind, last_of, follows, behind-last_of}
use mews.Store.Session.Pages.{
  session_entries, session_entries_page, fill, page_entries, has_some, page_limit,
  max_session_page_payload_bytes,
}

module _ {T : Type 0} (size : T → ℕ) where
  unfoldable pub total : List T → ℕ
  total [] = 0
  total (e ∷ es) = size e + total es

-- What the loop makes of the items: those it puts in the page, those it leaves, and the cursor.
record Filled {T : Type 0} (sequence size : T → ℕ) (room : ℕ) (last : Option ℕ) (payload : ℕ)
    (xs out rest : List T) (next : Option ℕ) : Type 0 where
  parts : xs ≡ out ++ rest
  within : payload + total size out ≤ max_session_page_payload_bytes
  limited : length out ≤ room
  cursor : (rest ≡ []) × (next ≡ none) ⊎ (has_some next ≡ true) × (next ≡ last_of sequence last out)
  moves : (xs ≡ []) ⊎ (has_some last ≡ true) ⊎ (0 < length out)

-- What a page is of the items behind a cursor.
pub record IsPart {T : Type 0} (sequence size : T → ℕ) (after : Option ℕ) (limit : ℕ)
    (xs out : List T) (next : Option ℕ) : Type 0 where
  pub bounded : total size out ≤ max_session_page_payload_bytes
  pub few : length out ≤ page_limit limit
  pub goes_on : behind sequence after xs ≡ out ++ follows sequence next xs
  pub advances : (behind sequence after xs ≡ []) ⊎ (0 < length out)

module _ {T : Type 0} (sequence : T → ℕ) (bytes : T → Option ℕ) (size : T → ℕ)
    (sized : (e : T) → bytes e ≡ some (size e)) where
  fill_lem :
      (room : ℕ) (last : Option ℕ) (payload : ℕ) (xs : List T)
      → payload ≤ max_session_page_payload_bytes
      → (has_some last ≡ false → (payload ≡ 0) × (0 < room))
      → All (λ e. size e ≤ max_session_page_payload_bytes) xs
      → (out rest : List T) × (next : Option ℕ) × (fill sequence bytes room last payload xs
          ≡ ok (out, next))
        × Filled sequence size room last payload xs out rest next
  unfolding fill total saturating_add
  fill_lem zero last payload [] h z fit = (
    [],
    [],
    none,
    refl,
    record {
      parts = refl;
      within = omega (arith, h);
      limited = omega arith;
      cursor = inl (refl, refl);
      moves = inl refl;
    },
  )
  fill_lem (suc room) last payload [] h z fit = (
    [],
    [],
    none,
    refl,
    record {
      parts = refl;
      within = omega (arith, h);
      limited = omega arith;
      cursor = inl (refl, refl);
      moves = inl refl;
    },
  )
  fill_lem zero last payload (e ∷ es) h z fit = (
    [],
    e ∷ es,
    last,
    refl,
    record {
      parts = refl;
      within = omega (arith, h);
      limited = omega arith;
      cursor = inr (some_last, refl);
      moves = inr (inl some_last);
    },
  )
    where
      some_last : has_some last ≡ true
      some_last = elim (Bool-cases (has_some last)) [
        | inl has ↦ has
        | inr nothing ↦ absurd (omega (arith, (z nothing).1))
      ]
  fill_lem (suc room) last payload (e ∷ es) h z fit = elim (Bool-cases full) [
    | inl stop ↦
        let led : has_some last ≡ true = ground arith in
        (
          [],
          e ∷ es,
          last,
          rw (sized e, large, stop),
          record {
            parts = refl;
            within = omega (arith, h);
            limited = omega arith;
            cursor = inr (led, refl);
            moves = inr (inl led);
          },
        )
    | inr go ↦
        let (out, rest, next, made, f) =
          fill_lem room (some (sequence e)) (payload + size e) es (fits go) (λ s. absurd (cc))
            fit.1 in
        (
          e ∷ out,
          rest,
          next,
          rw (sized e, large, go, made),
          record {
            parts = ap (◌∷◌ e) f.parts;
            within = omega (arith, f.within);
            limited = omega (arith, f.limited);
            cursor = f.cursor;
            moves = inr (inr (omega arith));
          },
        )
  ]
    where
      full : Bool
      full = has_some last && ltb max_session_page_payload_bytes (saturating_add payload (size e))

      large : ltb max_session_page_payload_bytes (size e) ≡ false
      large = ground (arith, fit.0)

      fits :
          (has_some last && ltb max_session_page_payload_bytes (saturating_add payload (size e)))
            ≡ false
          → payload + size e ≤ max_session_page_payload_bytes
      fits go = ground (arith, z, fit.0)

  follows-behind :
      (n : Option ℕ) (xs : List T)
      → has_some n ≡ true
      → follows sequence n xs ≡ behind sequence n xs
  follows-behind none xs h = absurd (cc)
  follows-behind (some n) xs h = refl

  last_of-led :
      (after : Option ℕ) (out : List T)
      → has_some (last_of sequence none out) ≡ true
      → last_of sequence none out ≡ last_of sequence after out
  last_of-led after [] h = absurd (cc)
  last_of-led after (e ∷ out) h = refl

  Filled-IsPart :
      (after : Option ℕ) (limit lo : ℕ) (xs out rest : List T) (next : Option ℕ)
      → Above sequence lo xs
      → Filled sequence size (page_limit limit) none 0 (behind sequence after xs) out rest next
      → IsPart sequence size after limit xs out next
  Filled-IsPart after limit lo xs out rest next w f = record {
    bounded = omega (arith, f.within);
    few = f.limited;
    goes_on = f.parts ∙ ap (◌++◌ out) (sym (followed f.cursor));
    advances = moved f.moves;
  }
    where
      followed :
          (rest ≡ []) × (next ≡ none) ⊎ (has_some next ≡ true) × (next ≡ last_of sequence none out)
          → follows sequence next xs ≡ rest
      followed (inl h) = ap (λ n. follows sequence n xs) h.1 ∙ sym h.0
      followed (inr h) =
          follows-behind next xs h.0
          ∙ ap (λ n. behind sequence n xs)
              (h.1 ∙ last_of-led after out (sym (ap has_some h.1) ∙ h.0))
          ∙ behind-last_of sequence after lo xs out rest w f.parts

      moved :
          (behind sequence after xs ≡ []) ⊎ (false ≡ true) ⊎ (0 < length out)
          → (behind sequence after xs ≡ []) ⊎ (0 < length out)
      moved (inl h) = inl h
      moved (inr (inl h)) = absurd (cc h)
      moved (inr (inr h)) = inr h

  pub page_entries_lem :
      (after : Option ℕ) (limit lo : ℕ) (xs : List T)
      → Above sequence lo xs
      → All (λ e. size e ≤ max_session_page_payload_bytes) xs
      → (out : List T) × (next : Option ℕ) × (page_entries sequence bytes xs after limit
          ≡ ok (out, next))
        × IsPart sequence size after limit xs out next
  unfolding page_entries
  page_entries_lem after limit lo xs w fit =
      let (out, rest, next, made, f) =
        fill_lem (page_limit limit) none 0 (behind sequence after xs) (omega arith)
          (λ _. (refl, omega arith))
          (All-keep (λ e. size e ≤ max_session_page_payload_bytes) _ xs fit) in
      (out, next, made, Filled-IsPart after limit lo xs out rest next w f)

-- The entries of a Session that are numbered without a gap have rising numbers.
Counts-Above :
    (n : ℕ) (s : Uid) (rows : List EntryRow)
    → Counts n s rows
    → Above (λ e. e.sequence) n (map (λ r. r.entry) (keep (λ r. r.session_id == s) rows))
unfolding keep
Counts-Above n s [] h = tt
Counts-Above n s (r ∷ rows) (inl h) = rw (h.0) (
  omega (arith, h.1),
  subst
      (λ m.
        Above (λ (e : SessionEntry). e.sequence) m
          (map (λ (q : EntryRow). q.entry) (keep (λ (q : EntryRow). q.session_id == s) rows)))
      (sym h.1) (Counts-Above (suc n) s rows h.2),
)
Counts-Above n s (r ∷ rows) (inr h) = rw (h.0) (Counts-Above n s rows h.1)

module _ (bytes : SessionEntry → Option ℕ) (size : SessionEntry → ℕ)
    (sized : (e : SessionEntry) → bytes e ≡ some (size e)) where
  -- Where the entries of every Session are numbered 1, 2, … in the order of insertion and each is small
  -- enough for a page, a page of the entries of a Session is read without an error. It is within the
  -- byte limit and has at most `limit` items, with a limit of 0 read as 1 and one over 500 as 500;
  -- the entries behind `after` are those of the page followed by exactly those behind the cursor for
  -- the next page, or by none without such a cursor; and it is empty only if there are none.
  pub session_entries_page_lem :
      (session : Uid) (after : Option ℕ) (limit : ℕ) (db : Db)
      → Numbered db.entries
      → All (λ r. size r.entry ≤ max_session_page_payload_bytes) db.entries
      → (out : List SessionEntry) × (next : Option ℕ) × (session_entries_page bytes session after
            limit db
          ≡ ok (out, next))
        × IsPart (λ e. e.sequence) size after limit (session_entries session db) out next
  unfolding session_entries_page session_entries
  session_entries_page_lem session after limit db numbered fit =
      page_entries_lem (λ e. e.sequence) bytes size sized after limit 0 (session_entries session db)
        (Counts-Above 0 session db.entries (numbered session))
        (All-map _ _ _
          (All-keep (λ r. size r.entry ≤ max_session_page_payload_bytes) _ db.entries fit))
