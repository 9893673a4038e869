-- ===== src/Store/Session/Finish/Answered.antt =====
-- crates/mews-store/src/turns.rs, close_orphan_tool_calls: which calls have a result after it.
use text.Mathlib.TextEquality.{eq_iff}
use text.Mathlib.Text.{◌==◌ as str_eq}
use mathlib.Core.List.{append-nil, append_assoc}
use mews.Prelude.{
  String, Bool, true, false, not, Option, none, some, List, [], ◌∷◌, ◌++◌, map, any, any-append,
  keep, All, ◌≡◌, refl, ap, sym, ◌∙◌, subst, ◌⊎◌, inl, inr, ◌==◌, ==_iff, ==_refl, if◌then◌else◌,
  arith,
}
use mews.Protocol.Messages.{SessionEntryPayload, ToolCall, ToolResult}
use mews.Protocol.Values.{Uid}
use mews.Store.Journal.Laws.{gets-Runs, pure-Runs}
use mews.Store.Session.Finish.{
  close_call, close_orphan_tool_calls, completes, is_completed, raw_completion, requested,
  record_interrupted_tool_processing, record_terminated_tool_result, requested_calls,
  session_payloads,
}
use mews.Store.Session.Recorded.{Adds}
use mews.Store.Session.Recorded.Rows.{Untold, record_result-Runs}
use mews.Store.Tables.{Db, EntryRow}
use mews.Store.Tx.{Tx, for_each, when}
use mews.Store.Tx.Runs.{Runs, bind-Runs}

abbrev pub payloads_of : Uid → List EntryRow → List SessionEntryPayload
payloads_of s xs = map (λ e. e.payload) (keep (λ e. e.session_id == s) xs)

keep-append :
    (p : EntryRow → Bool) (xs : List EntryRow) (row : EntryRow)
    → p row ≡ true
    → keep p (xs ++ row ∷ []) ≡ keep p xs ++ row ∷ []
unfolding keep
keep-append p [] row h = ap (λ b. if b then row ∷ [] else []) h
keep-append p (x ∷ xs) row h = ground (arith, keep-append p xs row h)

map-append :
    (xs : List EntryRow) (row : EntryRow)
    → map (λ e. e.payload) (xs ++ row ∷ []) ≡ map (λ e. e.payload) xs ++ row.payload ∷ []
map-append [] row = refl
map-append (x ∷ xs) row = ap (◌∷◌ x.payload) (map-append xs row)

payloads-append :
    (s : Uid) (xs : List EntryRow) (row : EntryRow)
    → row.session_id ≡ s
    → payloads_of s (xs ++ row ∷ []) ≡ payloads_of s xs ++ row.payload ∷ []
payloads-append s xs row h =
    ap (map (λ e. e.payload))
      (keep-append (λ e. e.session_id == s) xs row ((==_iff row.session_id s).1 h))
    ∙ map-append (keep (λ e. e.session_id == s) xs) row

pub Adds-payloads :
    (s : Uid) (p : SessionEntryPayload) (a b : Db)
    → Adds s p a b
    → session_payloads s b ≡ session_payloads s a ++ p ∷ []
unfolding session_payloads
Adds-payloads s p a b added =
    ap (payloads_of s) added.grown
    ∙ payloads-append s a.entries added.row added.session
    ∙ ap (λ q. payloads_of s a.entries ++ q ∷ []) added.payload

pub requested-append :
    (t : Uid) (ps qs : List SessionEntryPayload)
    → requested_calls t qs ≡ []
    → requested_calls t (ps ++ qs) ≡ requested_calls t ps
unfolding requested_calls
requested-append t [] qs h = h
requested-append t (p ∷ ps) qs h =
    ap (λ (l : List ToolCall). elim (requested t p) [ none ↦ l | some c ↦ c ∷ l ])
      (requested-append t ps qs h)

abbrev results : Uid → List ToolResult → List SessionEntryPayload
results t rs = map (SessionEntryPayload.tool_result t) rs

pub results_request : (t : Uid) (rs : List ToolResult) → requested_calls t (results t rs) ≡ []
unfolding requested_calls requested
results_request t [] = refl
results_request t (r ∷ rs) = results_request t rs

-- Only results of the Turn have been added to the entries of the Session.
pub record Answers (s t : Uid) (a b : Db) : Type 0 where
  pub told : List ToolResult
  pub grown : session_payloads s b ≡ session_payloads s a ++ results t told
  pub quiet : Untold a b

Answers-refl : (s t : Uid) (a : Db) → Answers s t a a
Answers-refl s t a = record {
  told = [];
  grown = sym (append-nil (session_payloads s a));
  quiet = (refl, refl);
}

results-append :
    (t : Uid) (xs ys : List ToolResult) → results t (xs ++ ys) ≡ results t xs ++ results t ys
results-append t [] ys = refl
results-append t (x ∷ xs) ys =
    ap (◌∷◌ (SessionEntryPayload.tool_result t x)) (results-append t xs ys)

Answers-trans : (s t : Uid) (a b c : Db) → Answers s t a b → Answers s t b c → Answers s t a c
Answers-trans s t a b c h k = record {
  told = h.told ++ k.told;
  grown =
      k.grown
      ∙ ap (λ l. l ++ results t k.told) h.grown
      ∙ append_assoc (session_payloads s a) (results t h.told) (results t k.told)
      ∙ ap (◌++◌ (session_payloads s a)) (sym (results-append t h.told k.told));
  quiet = (k.quiet.0 ∙ h.quiet.0, k.quiet.1 ∙ h.quiet.1);
}

pub completed-append :
    (t : Uid) (call : String) (ps qs : List SessionEntryPayload)
    → is_completed t call ps ≡ true
    → is_completed t call (ps ++ qs) ≡ true
unfolding is_completed
completed-append t call ps qs h = ground (arith, any-append (completes t call) ps qs)

abbrev Answered : Uid → Uid → String → Db → Type 0
Answered s t call db = is_completed t call (session_payloads s db) ≡ true

Answers-Answered :
    (s t : Uid) (call : String) (a b : Db)
    → Answers s t a b
    → Answered s t call a
    → Answered s t call b
Answers-Answered s t call a b h k =
    subst (λ l. is_completed t call l ≡ true) (sym h.grown)
      (completed-append t call (session_payloads s a) (results t h.told) k)

-- The last of a list of entries completes the call.
last_completes :
    (t : Uid) (call : String) (ps : List SessionEntryPayload) (r : ToolResult)
    → r.call_id ≡ call
    → is_completed t call (ps ++ SessionEntryPayload.tool_result t r ∷ []) ≡ true
unfolding is_completed completes any
last_completes t call [] r h = ground (arith, ==_refl t, (eq_iff r.call_id call).1 h)
last_completes t call (p ∷ ps) r h = ground (arith, last_completes t call ps r h)

answer :
    (s t : Uid) (call : String) (a b : Db)
    → (r : ToolResult) × (r.call_id ≡ call)
      × Adds s (SessionEntryPayload.tool_result t r) a b
      × Untold a b
    → Answers s t a b × Answered s t call b
answer s t call a b (r, named, added, quiet) = (
  record { told = r ∷ []; grown = Adds-payloads s _ a b added; quiet = quiet },
  subst (λ l. is_completed t call l ≡ true) (sym (Adds-payloads s _ a b added))
      (last_completes t call (session_payloads s a) r named),
)

chosen_named :
    (b : Bool) (call : String) (x r : ToolResult)
    → (b ≡ true → x.call_id ≡ call)
    → (if b then some x else none) ≡ some r
    → r.call_id ≡ call
chosen_named true call x r h k =
    let same : x ≡ r = cc in subst (λ q. q.call_id ≡ call) same (h refl)
chosen_named false call x r h k = absurd (cc)

later_named :
    (call : String) (x r : ToolResult) (rest : Option ToolResult)
    → ((y : ToolResult) → rest ≡ some y → y.call_id ≡ call)
    → elim rest [ some later ↦ some later | none ↦ if str_eq x.call_id call then some x else none ]
      ≡ some r
    → r.call_id ≡ call
later_named call x r none h k =
    chosen_named (str_eq x.call_id call) call x r ((eq_iff x.call_id call).0) k
later_named call x r (some y) h k = h r k

raw_named :
    (call : String) (rs : List (Option ToolResult)) (r : ToolResult)
    → raw_completion call rs ≡ some r
    → r.call_id ≡ call
unfolding raw_completion
raw_named call [] r h = absurd (cc)
raw_named call (none ∷ rs) r h = raw_named call rs r h
raw_named call (some x ∷ rs) r h =
    later_named call x r (raw_completion call rs) (raw_named call rs) h

-- A call without a result gets one.
close_raw :
    (s t : Uid) (call : ToolCall) (found : Option ToolResult) (db : Db) {u : Unit} {db' : Db}
    → ((r : ToolResult) → found ≡ some r → r.call_id ≡ call.call_id)
    → Runs
        (elim found [
          | none ↦ record_terminated_tool_result s t call.call_id call.tool false
          | some r ↦ record_interrupted_tool_processing s t r
        ])
        db
        u
        db'
    → Answers s t db db' × Answered s t call.call_id db'
unfolding record_terminated_tool_result record_interrupted_tool_processing
close_raw s t call none db named h =
    answer s t call.call_id db _ (record_result-Runs s t call.call_id call.tool _ _ db h)
close_raw s t call (some r) db {db' = db'} named h =
    subst (λ i. Answers s t db db' × Answered s t i db') (named r refl)
      (answer s t r.call_id db db' (record_result-Runs s t r.call_id r.tool _ _ db h))

when_open :
    (b : Bool) (m : Tx Unit) (db : Db) {u : Unit} {db' : Db}
    → Runs (when (not b) m) db u db'
    → ((b ≡ true) × (db' ≡ db)) ⊎ Runs m db u db'
unfolding when
when_open true m db h = inl (refl, cc)
when_open false m db h = inr h

close_call-Runs :
    (s t : Uid) (ps : List SessionEntryPayload) (raw : List (Option ToolResult)) (call : ToolCall)
    (a db : Db) {u : Unit} {db' : Db}
    → ps ≡ session_payloads s a
    → Answers s t a db
    → Runs (close_call s t ps raw call) db u db'
    → Answers s t db db' × Answered s t call.call_id db'
unfolding close_call
close_call-Runs s t ps raw call a db {db' = db'} from so_far h =
    elim (when_open (is_completed t call.call_id ps) _ db h) [
      | inl k ↦
          subst (λ d. Answers s t db d × Answered s t call.call_id d) (sym k.1)
            (
              Answers-refl s t db,
              Answers-Answered s t call.call_id a db so_far
                  (subst (λ l. is_completed t call.call_id l ≡ true) from k.0),
            )
      | inr k ↦
          close_raw s t call (raw_completion call.call_id raw) db (raw_named call.call_id raw) k
    ]

close_calls-Runs :
    (s t : Uid) (ps : List SessionEntryPayload) (raw : List (Option ToolResult)) (a : Db)
    (calls : List ToolCall) (db : Db) {u : Unit} {db' : Db}
    → ps ≡ session_payloads s a
    → Answers s t a db
    → Runs (for_each (close_call s t ps raw) calls) db u db'
    → Answers s t db db' × All (λ c. Answered s t c.call_id db') calls
unfolding for_each
close_calls-Runs s t ps raw a [] db from so_far h =
    (subst (Answers s t db) (sym (pure-Runs _ db h).1) (Answers-refl s t db), tt)
close_calls-Runs s t ps raw a (c ∷ calls) db {db' = db'} from so_far h =
    let (u1, db1, h1, k1) = bind-Runs _ _ db h in
    let (here, done) = close_call-Runs s t ps raw c a db from so_far h1 in
    let (rest, others) =
      close_calls-Runs s t ps raw a calls db1 from (Answers-trans s t a db db1 so_far here) k1 in
    (
      Answers-trans s t db db1 db' here rest,
      (Answers-Answered s t c.call_id db1 db' rest done, others),
    )

-- After it every tool call that the Turn has requested has a result.
pub close_orphan_tool_calls-Runs :
    (s t : Uid) (db : Db) {u : Unit} {db' : Db}
    → Runs (close_orphan_tool_calls s t) db u db'
    → Untold db db'
      × All
          (λ c. is_completed t c.call_id (session_payloads s db') ≡ true)
          (requested_calls t (session_payloads s db'))
unfolding close_orphan_tool_calls
close_orphan_tool_calls-Runs s t db {db' = db'} h =
    let (ps, db1, h1, k1) = bind-Runs _ _ db h in
    let (raw, db2, h2, k2) = bind-Runs _ _ db1 k1 in
    let (same1, eq1) = gets-Runs _ db h1 in
    let (same2, eq2) = gets-Runs _ db1 h2 in
    let (answers, done) =
      close_calls-Runs s t ps raw db2 (requested_calls t ps) db2
        (same1 ∙ ap (session_payloads s) (sym (eq2 ∙ eq1))) (Answers-refl s t db2) k2 in
    let same_calls : requested_calls t (session_payloads s db') ≡ requested_calls t ps =
      ap (requested_calls t) answers.grown
      ∙ requested-append t (session_payloads s db2) (results t answers.told)
          (results_request t answers.told)
      ∙ ap (requested_calls t) (ap (session_payloads s) (eq2 ∙ eq1) ∙ sym same1) in
    (
      subst (λ d. Untold d db') (eq2 ∙ eq1) answers.quiet,
      subst (All (λ c. is_completed t c.call_id (session_payloads s db') ≡ true)) (sym same_calls)
          done,
    )
