-- ===== src/Store/Journal/Laws.antt =====
-- crates/mews-store/src/events.rs, insert_entry: the insertions of an append.
use mathlib.Core.List.{append_assoc, append-nil}
use mews.Prelude.{
  ℕ, suc, ◌+◌, ◌≡◌, refl, ap, sym, ◌∙◌, subst, String, Option, none, some, List, [], ◌∷◌, ◌++◌,
  length, length-append, All, All-append, arith,
}
use mews.Protocol.Events.Journal.{JournalEntry, JournalSubjectType}
use mews.Protocol.Events.Validate.{JournalError, validate}
use mews.Protocol.Values.{IdText, Time}
use mews.Store.Tables.{Db}
use mews.Store.Tx.{pure, fail, gets, modify}
use mews.Store.Tx.Runs.{Runs, bind-Runs, require-Runs}
use mews.Store.Journal.{
  checked, insert_row, insert_entry, insert_entries, insert_subjects, committed_entry,
}
use mews.Store.Journal.Check.{NewJournalEntry, JournalSubjectAppend}

-- The numbers of the entries follow `n` without a gap.
abbrev pub Follow : ℕ → List JournalEntry → Type 0
Follow n [] = Unit
Follow n (e ∷ es) = (e.position ≡ suc n) × Follow (suc n) es

-- The entry is valid and names the command.
abbrev pub Committed : String → JournalEntry → Type 0
Committed command e = (validate e ≡ none) × (e.command_id ≡ some command)

-- `db'` is `db` with the entries at the end of the journal, and the same receipts.
pub record Grown (command : String) (es : List JournalEntry) (db db' : Db) : Type 0 where
  pub journal : db'.journal ≡ db.journal ++ es
  pub watermark : db'.last_position ≡ db.last_position + length es
  pub numbered : Follow db.last_position es
  pub committed : All (Committed command) es
  pub receipts : db'.receipts ≡ db.receipts

Follow-append :
    (n : ℕ) (xs ys : List JournalEntry)
    → Follow n xs
    → Follow (n + length xs) ys
    → Follow n (xs ++ ys)
Follow-append n [] ys h k = subst (λ m. Follow m ys) (omega arith) k
Follow-append n (x ∷ xs) ys h k =
    (h.0, Follow-append (suc n) xs ys h.1 (subst (λ m. Follow m ys) (omega arith) k))

pub Grown-nil : (command : String) (db : Db) → Grown command [] db db
Grown-nil command db = record {
  journal = sym (append-nil db.journal);
  watermark = omega arith;
  numbered = tt;
  committed = tt;
  receipts = refl;
}

Grown-append :
    (command : String) (es fs : List JournalEntry) (a b c : Db)
    → Grown command es a b
    → Grown command fs b c
    → Grown command (es ++ fs) a c
Grown-append command es fs a b c h k = record {
  journal = k.journal ∙ ap (λ j. j ++ fs) h.journal ∙ append_assoc a.journal es fs;
  watermark = omega (arith, h.watermark, k.watermark, length-append es fs);
  numbered =
      Follow-append a.last_position es fs h.numbered
        (subst (λ n. Follow n fs) h.watermark k.numbered);
  committed = All-append (Committed command) es fs h.committed k.committed;
  receipts = k.receipts ∙ h.receipts;
}

pub checked-Runs :
    (o : Option JournalError) (db : Db) {u : Unit} {db' : Db}
    → Runs (checked o) db u db'
    → (o ≡ none) × (db' ≡ db)
unfolding pure fail
checked-Runs none db h = (refl, cc)
checked-Runs (some e) db h = absurd (cc)

pub gets-Runs :
    {A : Type 0} (f : Db → A) (db : Db) {a : A} {db' : Db}
    → Runs (gets f) db a db'
    → (a ≡ f db) × (db' ≡ db)
unfolding gets
gets-Runs f db h = (cc, cc)

pub modify-Runs :
    (f : Db → Db) (db : Db) {u : Unit} {db' : Db} → Runs (modify f) db u db' → db' ≡ f db
unfolding modify
modify-Runs f db h = cc

pub pure-Runs :
    {A : Type 0} (a : A) (db : Db) {b : A} {db' : Db}
    → Runs (pure a) db b db'
    → (b ≡ a) × (db' ≡ db)
unfolding pure
pure-Runs a db h = (cc, cc)

insert_row-Grown :
    (command : String) (e : JournalEntry) (db db' : Db)
    → e.position ≡ suc db.last_position
    → Committed command e
    → db' ≡ insert_row e db
    → Grown command (e ∷ []) db db'
unfolding insert_row
insert_row-Grown command e db db' next ok_entry moved = record {
  journal = ap (λ d. d.journal) moved;
  watermark = omega (arith, next, ap (λ d. d.last_position) moved);
  numbered = (next, tt);
  committed = (ok_entry, tt);
  receipts = ap (λ d. d.receipts) moved;
}

insert_entry-Grown :
    (command : String) (kind : JournalSubjectType) (subject : IdText) (at : Time)
    (entry : NewJournalEntry) (db : Db) {e : JournalEntry} {db' : Db}
    → Runs (insert_entry (some command) kind subject at entry) db e db'
    → Grown command (e ∷ []) db db'
unfolding insert_entry committed_entry
insert_entry-Grown command kind subject at entry db h =
    let (taken, db1, h1, k1) = bind-Runs _ _ db h in
    let (u2, db2, h2, k2) = bind-Runs _ _ db1 k1 in
    let (last, db3, h3, k3) = bind-Runs _ _ db2 k2 in
    let (u4, db4, h4, k4) = bind-Runs _ _ db3 k3 in
    let (u5, db5, h5, k5) = bind-Runs _ _ db4 k4 in
    let (same1, eq1) = gets-Runs _ db h1 in
    let (free, eq2) = require-Runs _ _ db1 h2 in
    let (same3, eq3) = gets-Runs _ db2 h3 in
    let eq4 = modify-Runs _ db3 h4 in
    let (valid, eq5) = checked-Runs _ db4 h5 in
    let (same6, eq6) = pure-Runs _ db5 k5 in
    let here : db3 ≡ db = eq3 ∙ eq2 ∙ eq1 in
    let stamp = committed_entry (some command) kind subject at entry in
    let next : last ≡ db.last_position = same3 ∙ ap (λ d. d.last_position) (eq2 ∙ eq1) in
    insert_row-Grown command _ db _ (ap (λ t. t.position) same6 ∙ ap suc next)
      (ap validate same6 ∙ valid, ap (λ t. t.command_id) same6)
      (eq6
        ∙ eq5
        ∙ eq4
        ∙ ap (insert_row (stamp (suc last))) here
        ∙ ap (λ t. insert_row t db) (sym same6))

Grown-moved :
    {command : String} {es fs : List JournalEntry} {a b c : Db}
    → Grown command es a b
    → (fs ≡ es) × (c ≡ b)
    → Grown command fs a c
Grown-moved {command} {fs = fs} {a = a} {b = b} h (same, eq) =
    subst (λ d. Grown command fs a d) (sym eq) (subst (λ t. Grown command t a b) (sym same) h)

insert_entries-Grown :
    (command : String) (at : Time) (subject : JournalSubjectAppend) (entries : List NewJournalEntry)
    (db : Db) {es : List JournalEntry} {db' : Db}
    → Runs (insert_entries command at subject entries) db es db'
    → Grown command es db db'
unfolding insert_entries
insert_entries-Grown command at subject [] db h =
    Grown-moved (Grown-nil command db) (pure-Runs _ db h)
insert_entries-Grown command at subject (n ∷ ns) db h =
    let (first, db1, h1, k1) = bind-Runs _ _ db h in
    let (rest, db2, h2, k2) = bind-Runs _ _ db1 k1 in
    Grown-moved
      (Grown-append command (first ∷ []) rest db db1 db2 (insert_entry-Grown command _ _ at n db h1)
        (insert_entries-Grown command at subject ns db1 h2))
      (pure-Runs _ db2 k2)

pub insert_subjects-Grown :
    (command : String) (at : Time) (subjects : List JournalSubjectAppend) (db : Db)
    {es : List JournalEntry} {db' : Db}
    → Runs (insert_subjects command at subjects) db es db'
    → Grown command es db db'
unfolding insert_subjects
insert_subjects-Grown command at [] db h = Grown-moved (Grown-nil command db) (pure-Runs _ db h)
insert_subjects-Grown command at (s ∷ ss) db h =
    let (first, db1, h1, k1) = bind-Runs _ _ db h in
    let (rest, db2, h2, k2) = bind-Runs _ _ db1 k1 in
    Grown-moved
      (Grown-append command first rest db db1 db2
        (insert_entries-Grown command at s s.entries db h1)
        (insert_subjects-Grown command at ss db1 h2))
      (pure-Runs _ db2 k2)
