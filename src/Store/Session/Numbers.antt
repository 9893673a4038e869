-- ===== src/Store/Session/Numbers.antt =====
-- crates/mews-store/src/sessions.rs: the numbers of the entries of a Session over any sequence of calls.
use mews.Prelude.{
  ℕ, suc, max, true, false, List, [], ◌∷◌, ◌++◌, any, ◌≡◌, refl, ap, sym, ◌∙◌, ◌⊎◌, inl, inr, ◌==◌,
  arith, Bool-cases,
}
use mathlib.Core.List.{append-nil, append_assoc}
use mews.Protocol.Values.{Uid}
use mews.Store.Session.Calls.{Call, run}
use mews.Store.Session.Entries.{entry_clashes, max_entry_sequence, next_sequence}
use mews.Store.Session.Steps.Run.{run-moves}
use mews.Store.Session.Steps.Tables.{EntrySteps, entries-Records}
use mews.Store.Tables.{Db, EntryRow}

-- The entries of the Session, in the order of insertion, have the numbers after `n` without a gap.
abbrev pub Counts : ℕ → Uid → List EntryRow → Type 0
Counts n s [] = Unit
Counts n s (e ∷ es) =
    ((e.session_id == s) ≡ true) × (e.sequence ≡ suc n) × Counts (suc n) s es
    ⊎ ((e.session_id == s) ≡ false) × Counts n s es

-- The entries of every Session are numbered 1, 2, … in the order of insertion.
abbrev pub Numbered : List EntryRow → Type 0
Numbered xs = (s : Uid) → Counts 0 s xs

Counts-append :
    (n : ℕ) (s : Uid) (xs : List EntryRow) (row : EntryRow)
    → (row.session_id ≡ s → row.sequence ≡ suc (max n (max_entry_sequence s xs)))
    → Counts n s xs
    → Counts n s (xs ++ row ∷ [])
unfolding max_entry_sequence
Counts-append n s [] row h k = elim (Bool-cases (row.session_id == s)) [
  | inl hit ↦ inl (hit, omega (arith, h (ground arith)), tt)
  | inr miss ↦ inr (miss, tt)
]
Counts-append n s (e ∷ xs) row h (inl k) =
    inl (k.0, k.1, Counts-append (suc n) s xs row (λ same. ground (arith, h same, k.0, k.1)) k.2)
Counts-append n s (e ∷ xs) row h (inr k) =
    inr (k.0, Counts-append n s xs row (λ same. ground (arith, h same, k.0)) k.1)

-- Entries are only added, and the numbering is kept.
abbrev pub Grows : List EntryRow → List EntryRow → Type 0
Grows xs ys = Numbered xs → Numbered ys × (new : List EntryRow) × (ys ≡ xs ++ new)

entry-Grows :
    (row : EntryRow) (db : Db)
    → row.sequence ≡ next_sequence row.session_id db
    → any (entry_clashes row) db.entries ≡ false
    → Grows db.entries (db.entries ++ row ∷ [])
unfolding next_sequence
entry-Grows row db next free numbered = (
  λ s.
      Counts-append 0 s db.entries row
        (λ same. ground (arith, next, ap (λ i. max_entry_sequence i db.entries) same)) (numbered s),
  row ∷ [],
  refl,
)

entries : EntrySteps Grows
entries = record {
  same = λ xs h. (h, [], sym (append-nil xs));
  chain = λ xs ys zs h k numbered.
      (let (n1, new1, e1) = h numbered in
        let (n2, new2, e2) = k n1 in
        (n2, new1 ++ new2, e2 ∙ ap (λ l. l ++ new2) e1 ∙ append_assoc xs new1 new2));
  entry = entry-Grows;
}

-- Where the entries of every Session are numbered 1, 2, … in the order of insertion, they are so after
-- any sequence of calls, failed ones included; and the entries there were are there still, unchanged
-- and in their order, with what the calls have added behind them.
pub run-Grows :
    (calls : List Call) (db : Db)
    → Numbered db.entries
    → Numbered (run calls db).entries
      × (new : List EntryRow) × ((run calls db).entries ≡ db.entries ++ new)
run-Grows calls db numbered = run-moves (entries-Records entries) calls db numbered
