-- ===== src/Store/Journal/Retry.antt =====
-- crates/mews-store/src/events.rs, append_journal_entries_in: an append and its retry.
use text.Mathlib.TextEquality.{eq_iff}
use text.Mathlib.Text.{◌==◌ as str_eq}
use mews.Prelude.{
  suc, ◌≡◌, refl, ap, sym, ◌∙◌, subst, String, Bool, true, false, Option, none, some, List, [], ◌∷◌,
  ◌++◌, All, find, arith, inl, inr, Bool-cases, if◌then◌else◌, ◌⊎◌,
}
use mews.Protocol.Events.Journal.{JournalEntry}
use mews.Protocol.Values.{Time}
use mews.Store.Result.{StoreError, Invalid, ok, err, command_conflict}
use mews.Store.Tables.{Db, CommandReceipt}
use mews.Store.Tx.{Tx, ◌>>=◌, pure, fail, gets, utc_now, Moves}
use mews.Store.Tx.Runs.{Runs, bind-Runs, Runs-Moves}
use mews.Store.Journal.{
  AppendOutcome, appended, replayed, receipt_of, select_command_receipt, first_position,
  final_position, append_new, accepted, unless_known, insert_receipt, new_receipt,
  append_journal_entries_in,
}
use mews.Store.Journal.Check.{JournalAppend, validate_append}
use mews.Store.Journal.Laws.{
  Grown, Follow, Committed, gets-Runs, modify-Runs, pure-Runs, insert_subjects-Grown,
}

-- The journal and the receipts are as they were.
pub record Keeps (db db' : Db) : Type 0 where
  pub journal : db'.journal ≡ db.journal
  pub watermark : db'.last_position ≡ db.last_position
  pub receipts : db'.receipts ≡ db.receipts

-- What a new append leaves.
pub record Appends (append : JournalAppend) (es : List JournalEntry) (r : CommandReceipt)
    (db db' : Db) : Type 0 where
  pub journal : db'.journal ≡ db.journal ++ es
  pub numbered : Follow db.last_position es
  pub committed : All (Committed append.command_id) es
  pub receipts : db'.receipts ≡ db.receipts ++ r ∷ []
  pub command : r.command_id ≡ append.command_id
  pub request : r.request_hash ≡ append.request_hash
  pub first : r.first_position ≡ first_position es
  pub last : r.last_position ≡ final_position es

utc_now-Keeps : (db : Db) {now : Time} {db' : Db} → Runs utc_now db now db' → Keeps db db'
unfolding utc_now
utc_now-Keeps db {db' = db'} h =
    let moved : db' ≡ record db { readings = suc db.readings } = cc in
    record {
      journal = ap (λ d. d.journal) moved;
      watermark = ap (λ d. d.last_position) moved;
      receipts = ap (λ d. d.receipts) moved;
    }

insert_receipt-Appends :
    (append : JournalAppend) (at : Time) (es : List JournalEntry) (db db1 db2 db3 db4 : Db)
    → Keeps db db1
    → Grown append.command_id es db1 db2
    → Keeps db2 db3
    → db4 ≡ insert_receipt (new_receipt append at es) db3
    → Appends append es (new_receipt append at es) db db4
unfolding insert_receipt new_receipt
insert_receipt-Appends append at es db db1 db2 db3 db4 started grown kept moved = record {
  journal =
      ap (λ d. d.journal) moved ∙ kept.journal ∙ grown.journal ∙ ap (λ j. j ++ es) started.journal;
  numbered = subst (λ n. Follow n es) started.watermark grown.numbered;
  committed = grown.committed;
  receipts =
      ap (λ d. d.receipts) moved
      ∙ ap (λ rs. rs ++ new_receipt append at es ∷ [])
          (kept.receipts ∙ grown.receipts ∙ started.receipts);
  command = refl;
  request = refl;
  first = refl;
  last = refl;
}

append_new-Appends :
    (append : JournalAppend) (mutate : List JournalEntry → Tx Unit)
    → ((es : List JournalEntry) → Moves Keeps (mutate es))
    → (db : Db) {o : AppendOutcome} {db' : Db} → Runs (append_new append mutate) db o db'
    → (es : List JournalEntry) × (r : CommandReceipt) × (o ≡ appended es r)
      × Appends append es r db db'
unfolding append_new
append_new-Appends append mutate keeps db h =
    let (at, db1, h1, k1) = bind-Runs _ _ db h in
    let (es, db2, h2, k2) = bind-Runs _ _ db1 k1 in
    let (u3, db3, h3, k3) = bind-Runs _ _ db2 k2 in
    let (u4, db4, h4, k4) = bind-Runs _ _ db3 k3 in
    let (same, eq) = pure-Runs _ db4 k4 in
    (
      es,
      new_receipt append at es,
      same,
      insert_receipt-Appends append at es db db1 db2 db3 _ (utc_now-Keeps db h1)
          (insert_subjects-Grown append.command_id at append.subjects db1 h2)
          (Runs-Moves (mutate es) db2 (keeps es) h3) (eq ∙ modify-Runs _ db3 h4),
    )

accepted-Runs :
    (o : Option Invalid) (db : Db) {u : Unit} {db' : Db}
    → Runs (accepted o) db u db'
    → (o ≡ none) × (db' ≡ db)
unfolding pure fail
accepted-Runs none db h = (refl, cc)
accepted-Runs (some e) db h = absurd (cc)

known_request :
    (b : Bool) (r : CommandReceipt) (e : StoreError) (db : Db) {o : AppendOutcome} {db' : Db}
    → Runs (if b then pure (replayed r) else fail e) db o db'
    → (b ≡ true) × (o ≡ replayed r) × (db' ≡ db)
unfolding pure fail
known_request true r e db h = (refl, cc, cc)
known_request false r e db h = absurd (cc)

-- A command that succeeds was known with the same request, and nothing is done; or it was not.
unless_known-Runs :
    (append : JournalAppend) (mutate : List JournalEntry → Tx Unit) (known : Option CommandReceipt)
    (db : Db) {o : AppendOutcome} {db' : Db}
    → Runs (unless_known append mutate known) db o db'
    → ((known ≡ none) × Runs (append_new append mutate) db o db')
      ⊎ ((r : CommandReceipt) × (known ≡ some r)
          × (str_eq r.request_hash append.request_hash ≡ true)
          × (o ≡ replayed r)
          × (db' ≡ db))
unfolding unless_known
unless_known-Runs append mutate none db h = inl (refl, h)
unless_known-Runs append mutate (some r) db h =
    let (hit, replay, still) = known_request _ r _ db h in inr (r, refl, hit, replay, still)

append_journal_entries_in-Runs :
    (append : JournalAppend) (mutate : List JournalEntry → Tx Unit) (db : Db) {o : AppendOutcome}
    {db' : Db}
    → Runs (append_journal_entries_in append mutate) db o db'
    → (validate_append append ≡ none)
      × Runs
          (unless_known append mutate (select_command_receipt append.command_id db.receipts))
          db
          o
          db'
unfolding append_journal_entries_in
append_journal_entries_in-Runs append mutate db {o} {db'} h =
    let (u1, db1, h1, k1) = bind-Runs _ _ db h in
    let (known, db2, h2, k2) = bind-Runs _ _ db1 k1 in
    let (valid, eq1) = accepted-Runs _ db h1 in
    let (same, eq2) = gets-Runs _ db1 h2 in
    let here : db2 ≡ db = eq2 ∙ eq1 in
    let found = same ∙ ap (λ d. select_command_receipt append.command_id d.receipts) eq1 in
    (
      valid,
      subst
          (λ d.
            Runs (unless_known append mutate (select_command_receipt append.command_id db.receipts))
              d o db')
          here (subst (λ k. Runs (unless_known append mutate k) db2 o db') found k2),
    )

-- An append that succeeds either is new: the journal grows by the entries it returns, which are
-- valid, name the command and take the next numbers, and its receipt is stored with the numbers of
-- the first and last of them; or its command is known with the same request: nothing changes.
-- `mutate` must leave the journal and the receipts alone.
pub append_journal_entries_in_lem :
    (append : JournalAppend) (mutate : List JournalEntry → Tx Unit)
    (keeps : (es : List JournalEntry) → Moves Keeps (mutate es)) (db : Db) (o : AppendOutcome)
    (db' : Db) (succeeds : append_journal_entries_in append mutate db ≡ ok (o, db'))
    → ((es : List JournalEntry) × (r : CommandReceipt) × (o ≡ appended es r)
        × Appends append es r db db')
      ⊎ ((r : CommandReceipt) × (select_command_receipt append.command_id db.receipts ≡ some r)
          × (r.request_hash ≡ append.request_hash)
          × (o ≡ replayed r)
          × (db' ≡ db))
append_journal_entries_in_lem append mutate keeps db o db' h =
    elim (unless_known-Runs append mutate _ db
      (append_journal_entries_in-Runs append mutate db h).1) [
        | inl (fresh, new) ↦ inl (append_new-Appends append mutate keeps db new)
        | inr (r, known, same, replay, still) ↦
            inr (r, known, (eq_iff r.request_hash append.request_hash).0 same, replay, still)
      ]

-- Nothing is stored under the name; then the receipt that is put at the end is the one found.
select_command_receipt-append :
    (id : String) (rs : List CommandReceipt) (r : CommandReceipt)
    → select_command_receipt id rs ≡ none
    → r.command_id ≡ id
    → select_command_receipt id (rs ++ r ∷ []) ≡ some r
unfolding select_command_receipt find
select_command_receipt-append id [] r h k = rw ((eq_iff r.command_id id).1 k) refl
select_command_receipt-append id (q ∷ rs) r h k = elim (Bool-cases (str_eq q.command_id id)) [
  | inl hit ↦ absurd (ground arith)
  | inr miss ↦ rw miss (select_command_receipt-append id rs r (ground arith) k)
]

-- After a success the receipt of its outcome is the one found, with its request.
pub stored_receipt :
    (append : JournalAppend) (mutate : List JournalEntry → Tx Unit)
    → ((es : List JournalEntry) → Moves Keeps (mutate es))
    → (db : Db) (o : AppendOutcome) (db' : Db)
    → Runs (append_journal_entries_in append mutate) db o db'
    → (select_command_receipt append.command_id db'.receipts ≡ some (receipt_of o))
      × ((receipt_of o).request_hash ≡ append.request_hash)
unfolding receipt_of
stored_receipt append mutate keeps db o db' h =
    elim (unless_known-Runs append mutate _ db
      (append_journal_entries_in-Runs append mutate db h).1) [
        | inl (fresh, new) ↦
            let (es, r, same, a) = append_new-Appends append mutate keeps db new in
            (
              ap (select_command_receipt append.command_id) a.receipts
                  ∙ select_command_receipt-append append.command_id db.receipts r fresh a.command
                  ∙ ap (λ x. some (receipt_of x)) (sym same),
              ap (λ x. (receipt_of x).request_hash) same ∙ a.request,
            )
        | inr (r, known, same, replay, still) ↦ (
          ap (λ d. select_command_receipt append.command_id d.receipts) still
              ∙ known
              ∙ ap (λ x. some (receipt_of x)) (sym replay),
          ap (λ x. (receipt_of x).request_hash) replay
              ∙ (eq_iff r.request_hash append.request_hash).0 same,
        )
      ]

-- An append that names a known command and is itself acceptable.
append_journal_entries_in-known :
    (again : JournalAppend) (mutate : List JournalEntry → Tx Unit) (r : CommandReceipt) (db : Db)
    → validate_append again ≡ none
    → select_command_receipt again.command_id db.receipts ≡ some r
    → append_journal_entries_in again mutate db ≡ (
        if str_eq r.request_hash again.request_hash
        then ok (replayed r, db)
        else err (command_conflict again.command_id))
unfolding append_journal_entries_in unless_known ◌>>=◌ gets pure fail
append_journal_entries_in-known again mutate r db valid known =
    rw (valid, known)
      (elim (Bool-cases (str_eq r.request_hash again.request_hash)) [
        | inl same ↦ rw same refl
        | inr other ↦ rw other refl
      ])

-- After an append that succeeds, any acceptable append of the same command, whatever it would do,
-- changes nothing: with the same request it gets the receipt of the first, and with another request
-- it is refused. `mutate` must leave the journal and the receipts alone.
pub retry_lem :
    (append again : JournalAppend) (mutate mutate_again : List JournalEntry → Tx Unit)
    (keeps : (es : List JournalEntry) → Moves Keeps (mutate es)) (db : Db) (o : AppendOutcome)
    (db' : Db) (succeeds : append_journal_entries_in append mutate db ≡ ok (o, db'))
    (valid : validate_append again ≡ none) (same : again.command_id ≡ append.command_id)
    → append_journal_entries_in again mutate_again db' ≡ (
        if str_eq append.request_hash again.request_hash
        then ok (replayed (receipt_of o), db')
        else err (command_conflict again.command_id))
retry_lem append again mutate mutate_again keeps db o db' succeeds valid same =
    let (known, request) = stored_receipt append mutate keeps db o db' succeeds in
    append_journal_entries_in-known again mutate_again (receipt_of o) db' valid
      (ap (λ t. select_command_receipt t db'.receipts) same ∙ known)
    ∙ ap
        (λ t.
          if str_eq t again.request_hash
          then ok (replayed (receipt_of o), db')
          else err (command_conflict again.command_id))
        request
