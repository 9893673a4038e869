-- ===== src/Store/Session/Finish/Laws.antt =====
-- crates/mews-store/src/turns.rs, finish_turn_with_stop_reason: what a Turn that is finished leaves.
use mews.Prelude.{
  String, Bool, true, false, not, Option, none, some, List, [], ◌∷◌, any, find, find-some,
  find_none, All, ◌≡◌, refl, ap, sym, ◌∙◌, subst, ◌⊎◌, inl, inr, ◌==◌, ◌&&◌, if◌then◌else◌, arith,
  Bool-cases, Option-cases,
}
use mews.Protocol.Turns.{TurnStatus}
use mews.Protocol.Values.{Uid}
use mews.Store.Journal.Laws.{gets-Runs, pure-Runs}
use mews.Store.Result.{
  ok, err, invalid_data, turn_finished, running_status, not_found, Kind, StoreError,
}
use mews.Store.Session.Active.{SoundTurns, named, turns}
use mews.Store.Session.Finish.{
  close_open_effects, finish_active, finish_again, finish_turn_with_stop_reason, open_of,
  same_status, select_turn,
}
use mews.Store.Session.Finish.Answered.{close_orphan_tool_calls-Runs}
use mews.Store.Session.Finish.Closed.{close_open_effects-Runs}
use mews.Store.Session.Progress.{SoundEffects}
use mews.Store.Session.Steps.Finish.{close_open_effects-Moves}
use mews.Store.Session.Steps.Tables.{turns-Records}
use mews.Store.Session.Turns.{has_ended}
use mews.Store.Tables.{Db, TurnRow, is_active}
use mews.Store.Tx.{Tx, pure, gets, require, require_some, when}
use mews.Store.Tx.Runs.{Runs, bind-Runs, require-Runs, Runs-Moves, Runs-bind, bind_ok}
use mews.Store.Session.Finish.Ended.{Ended, Finished, Terminated-Finished, event-Terminated}

closed_when :
    (s t : Uid) (b : Bool) (db : Db) {u : Unit} {db' : Db}
    → SoundTurns db.turns
    → SoundEffects db.effects
    → b ≡ any (open_of t) db.effects
    → Runs (when b (close_open_effects s t)) db u db'
    → SoundTurns db'.turns × (any (open_of t) db'.effects ≡ false)
unfolding when
closed_when s t true db turned sound is_open h = (
  (Runs-Moves _ db (close_open_effects-Moves (turns-Records turns) s t) h turned).0,
  close_open_effects-Runs s t db sound h,
)
closed_when s t false db {db' = db'} turned sound is_open h =
    let same : db' ≡ db = cc in
    (
      subst (λ d. SoundTurns d.turns) (sym same) turned,
      ap (λ d. any (open_of t) d.effects) same ∙ sym is_open,
    )

-- A Turn that is finished while it is active.
finish_active-Finished :
    (s t : Uid) (status : TurnStatus) (error stop : Option String) (db : Db) {u : Unit} {db' : Db}
    → SoundTurns db.turns
    → SoundEffects db.effects
    → has_ended status ≡ true
    → Runs (finish_active s t status error stop) db u db'
    → Finished t status s db'
unfolding finish_active
finish_active-Finished s t status error stop db {db' = db'} turned sound ended h =
    let (b, db1, h1, k1) = bind-Runs _ _ db h in
    let (u2, db2, h2, k2) = bind-Runs _ _ db1 k1 in
    let (u3, db3, h3, k3) = bind-Runs _ _ db2 k2 in
    let (u4, db4, h4, k4) = bind-Runs _ _ db3 k3 in
    let (same1, eq1) = gets-Runs _ db h1 in
    let (passed, eq2) = require-Runs _ _ db1 h2 in
    let here = eq2 ∙ eq1 in
    let (turned3, shut) =
      closed_when s t b db2 (subst (λ d. SoundTurns d.turns) (sym here) turned)
        (subst (λ d. SoundEffects d.effects) (sym here) sound)
        (same1 ∙ ap (λ d. any (open_of t) d.effects) (sym here)) h3 in
    let (quiet, answered) = close_orphan_tool_calls-Runs s t db3 h4 in
    let (error', last) = event-Terminated s t status error stop db4 ended k4 in
    Terminated-Finished t status error' s db4 db' (subst SoundTurns (sym quiet.0) turned3)
      (ap (any (open_of t)) quiet.1 ∙ shut) answered last

ended_status :
    (status : TurnStatus)
    → not (same_status status TurnStatus.running) ≡ true
    → has_ended status ≡ true
ended_status TurnStatus.running h = absurd (cc)
ended_status TurnStatus.completed h = refl
ended_status TurnStatus.failed h = refl
ended_status TurnStatus.cancelled h = refl

same_statuses : (a b : TurnStatus) → same_status a b ≡ true → a ≡ b
same_statuses TurnStatus.running TurnStatus.running h = refl
same_statuses TurnStatus.running TurnStatus.completed h = absurd (cc)
same_statuses TurnStatus.running TurnStatus.failed h = absurd (cc)
same_statuses TurnStatus.running TurnStatus.cancelled h = absurd (cc)
same_statuses TurnStatus.completed TurnStatus.running h = absurd (cc)
same_statuses TurnStatus.completed TurnStatus.completed h = refl
same_statuses TurnStatus.completed TurnStatus.failed h = absurd (cc)
same_statuses TurnStatus.completed TurnStatus.cancelled h = absurd (cc)
same_statuses TurnStatus.failed TurnStatus.running h = absurd (cc)
same_statuses TurnStatus.failed TurnStatus.completed h = absurd (cc)
same_statuses TurnStatus.failed TurnStatus.failed h = refl
same_statuses TurnStatus.failed TurnStatus.cancelled h = absurd (cc)
same_statuses TurnStatus.cancelled TurnStatus.running h = absurd (cc)
same_statuses TurnStatus.cancelled TurnStatus.completed h = absurd (cc)
same_statuses TurnStatus.cancelled TurnStatus.failed h = absurd (cc)
same_statuses TurnStatus.cancelled TurnStatus.cancelled h = refl

-- The Turn had ended before, with that status, and nothing is changed.
abbrev pub Repeated : Uid → TurnStatus → Db → Db → Type 0
Repeated t status a b =
    (find (λ r. r.id == t && is_active r) a.turns ≡ none)
    × (b ≡ a)
    × (row : TurnRow) × (find (named t) a.turns ≡ some row)
    × (row.status ≡ status)

found_row :
    (o : Option TurnRow) (t : Uid) (db : Db) {row : TurnRow} {db' : Db}
    → Runs (require_some o (not_found Kind.turn t)) db row db'
    → (o ≡ some row) × (db' ≡ db)
unfolding require_some
found_row none t db h = absurd (cc)
found_row (some r) t db h = (cc, cc)

finish_again-Repeated :
    (t : Uid) (status : TurnStatus) (db : Db) {u : Unit} {db' : Db}
    → find (λ r. r.id == t && is_active r) db.turns ≡ none
    → Runs (finish_again t status) db u db'
    → Repeated t status db db'
unfolding finish_again select_turn
finish_again-Repeated t status db idle h =
    let (turn, db1, h1, k1) = bind-Runs _ _ db h in
    let (found, db2, h2, k2) = bind-Runs _ _ db h1 in
    let (row, db3, h3, k3) = bind-Runs _ _ db2 k2 in
    let (same2, eq2) = gets-Runs _ db h2 in
    let (is_some, eq3) = found_row found t db2 h3 in
    let (same4, eq4) = pure-Runs _ db3 k3 in
    let (agrees, eq5) = require-Runs _ _ db1 k1 in
    (
      idle,
      eq5 ∙ eq4 ∙ eq3 ∙ eq2,
      row,
      sym same2 ∙ is_some,
      ap (λ x. x.status) (sym same4) ∙ same_statuses turn.status status agrees,
    )

finish_found :
    (o : Option TurnRow) (t : Uid) (status : TurnStatus) (error stop : Option String) (db : Db)
    {u : Unit} {db' : Db}
    → SoundTurns db.turns
    → SoundEffects db.effects
    → has_ended status ≡ true
    → o ≡ find (λ r. r.id == t && is_active r) db.turns
    → Runs
        (elim o [
          | none ↦ finish_again t status
          | some r ↦ finish_active r.session_id t status error stop
        ])
        db
        u
        db'
    → ((row : TurnRow) × (find (λ r. r.id == t && is_active r) db.turns ≡ some row)
        × Finished t status row.session_id db')
      ⊎ Repeated t status db db'
finish_found none t status error stop db turned sound ended is_it h =
    inr (finish_again-Repeated t status db (sym is_it) h)
finish_found (some r) t status error stop db turned sound ended is_it h =
    inl (
      r,
      sym is_it,
      finish_active-Finished r.session_id t status error stop db turned sound ended h,
    )

-- Where a call to finish a Turn succeeds, from sound turns and distinct effects, either the Turn was
-- active, and now it has the given status and the date of its end, none of its effects is open, and
-- each tool call that it has requested has a result among the entries of its Session; or the Turn had
-- ended with that very status, and nothing is changed.
pub finish_turn_lem :
    (t : Uid) (status : TurnStatus) (error stop : Option String) (db db' : Db)
    → SoundTurns db.turns
    → SoundEffects db.effects
    → finish_turn_with_stop_reason t status error stop db ≡ ok (tt, db')
    → ((row : TurnRow) × (find (λ r. r.id == t && is_active r) db.turns ≡ some row)
        × Finished t status row.session_id db')
      ⊎ Repeated t status db db'
unfolding finish_turn_with_stop_reason
finish_turn_lem t status error stop db db' turned sound h =
    let (u1, db1, h1, k1) = bind-Runs _ _ db h in
    let (o, db2, h2, k2) = bind-Runs _ _ db1 k1 in
    let (ended, eq1) = require-Runs _ _ db h1 in
    let (same2, eq2) = gets-Runs _ db1 h2 in
    finish_found o t status error stop db turned sound (ended_status status ended)
      (same2 ∙ ap (λ d. find (λ r. r.id == t && is_active r) d.turns) eq1)
      (subst
        (λ d.
          Runs
            (elim o [
              | none ↦ finish_again t status
              | some r ↦ finish_active r.session_id t status error stop
            ])
            d tt db')
        (eq2 ∙ eq1) k2)

no_active_row :
    (t : Uid) (status : TurnStatus) (xs : List TurnRow)
    → All (Ended t status) xs
    → find (λ r. r.id == t && is_active r) xs ≡ none
unfolding find
no_active_row t status [] h = refl
no_active_row t status (x ∷ xs) h = elim (Bool-cases (named t x)) [
  | inl hit ↦ ground (arith, h.0 hit, no_active_row t status xs h.1)
  | inr miss ↦ ground (arith, no_active_row t status xs h.1)
]

found_named :
    (t : Uid) (xs : List TurnRow)
    → any (named t) xs ≡ true
    → (row : TurnRow) × (find (named t) xs ≡ some row)
found_named t xs h = elim (Option-cases (find (named t) xs)) [
  | inl gone ↦ absurd (ground (arith, find_none (named t) xs gone))
  | inr found ↦ found
]

require_if :
    (b : Bool) (e : StoreError) (db : Db) → require b e db ≡ (if b then ok (tt, db) else err e)
unfolding require
require_if true e db = refl
require_if false e db = refl

select-Runs :
    (t : Uid) (db : Db) (row : TurnRow)
    → find (named t) db.turns ≡ some row
    → Runs (select_turn t) db row.turn db
unfolding select_turn gets require_some pure
select-Runs t db row found =
    Runs-bind _ _ db refl
      (Runs-bind _ _ db (ap (λ o. require_some o (not_found Kind.turn t) db) found) refl)

-- What a call finds of a Turn that has ended.
finish_again-ended :
    (t : Uid) (status status' : TurnStatus) (db : Db) (row : TurnRow)
    → find (named t) db.turns ≡ some row
    → row.status ≡ status
    → finish_again t status' db
      ≡ (if same_status status status' then ok (tt, db) else err (invalid_data turn_finished))
unfolding finish_again
finish_again-ended t status status' db row found is_it =
    bind_ok (select_turn t) _ db (select-Runs t db row found)
    ∙ ap (λ x. require (same_status x status') (invalid_data turn_finished) db) is_it
    ∙ require_if (same_status status status') (invalid_data turn_finished) db

goes_on :
    (status : TurnStatus)
    → has_ended status ≡ true
    → not (same_status status TurnStatus.running) ≡ true
goes_on TurnStatus.running h = absurd (cc)
goes_on TurnStatus.completed h = refl
goes_on TurnStatus.failed h = refl
goes_on TurnStatus.cancelled h = refl

-- A Turn that has been finished is not finished once more: a second call with the same status does
-- nothing, and one with another terminal status is refused.
pub finish_turn_twice :
    (t : Uid) (status status' : TurnStatus) (s : Uid) (error stop : Option String) (db : Db)
    → Finished t status s db
    → has_ended status' ≡ true
    → finish_turn_with_stop_reason t status' error stop db
      ≡ (if same_status status status' then ok (tt, db) else err (invalid_data turn_finished))
unfolding finish_turn_with_stop_reason require gets
finish_turn_twice t status status' s error stop db done ended =
    let (row, found) = found_named t db.turns done.there in
    let rest : Option TurnRow → Tx Unit = λ o. elim o [
      | none ↦ finish_again t status'
      | some r ↦ finish_active r.session_id t status' error stop
    ] in
    let (hit, is_it) = find-some (Ended t status) (named t) db.turns found done.ended in
    bind_ok (require (not (same_status status' TurnStatus.running)) _) _ db (
      require_if _ _ db
      ∙ ap (λ b. if b then ok (tt, db) else err (invalid_data running_status))
          (goes_on status' ended))
    ∙ bind_ok (gets (λ d. find (λ r. r.id == t && is_active r) d.turns)) _ db refl
    ∙ ap (λ o. rest o db) (no_active_row t status db.turns done.ended)
    ∙ finish_again-ended t status status' db row found (is_it hit).0
