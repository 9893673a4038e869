-- ===== src/Store/Session/Recover/Laws.antt =====
-- crates/mews-store/src/schema.rs, recover_interrupted_work: the Turns after it.
use mews.Prelude.{
  ℕ, String, Bool, true, false, some, List, [], ◌∷◌, any, keep, length, All, All-imp, All-of,
  All-update_where, Updated, Updated-refl, Updated-trans, Updated-update_where, update_where,
  any-false, ◌≡◌, refl, ap, sym, ◌∙◌, subst, ◌==◌, ◌&&◌, ◌||◌, if◌then◌else◌, arith, ==_refl,
}
use mews.Protocol.Turns.{TurnStatus}
use mews.Protocol.Values.{Time, Uid}
use mews.Store.Journal.Laws.{gets-Runs, modify-Runs, pure-Runs}
use mews.Store.Result.{ok}
use mews.Store.Session.Active.{named}
use mews.Store.Session.Apply.{apply_event}
use mews.Store.Session.Finish.{requested}
use mews.Store.Session.Finish.Answered.{close_orphan_tool_calls-Runs}
use mews.Store.Session.Finish.Closed.{close_open_effects-turns}
use mews.Store.Session.Finish.Ended.{terminal-Terminated}
use mews.Store.Session.Recover.{drop_transient, interrupt_turn, recover_interrupted_work}
use mews.Store.Session.Turns.{finished}
use mews.Store.Tables.{Db, TurnRow, is_active}
use mews.Store.Tx.{for_each}
use mews.Store.Tx.Runs.{Runs, bind-Runs}

-- Why a Turn that was running has failed.
abbrev pub stopped : String
stopped = "Hub stopped before the Turn completed"

-- The row of a Turn before and after: as it was, or of a running Turn that has failed by the stop.
pub data Halted (x : TurnRow) : TurnRow → Type 0 where
  as_it_was : Halted x x
  halted :
      (at : Time) → is_active x ≡ true → Halted x (finished TurnStatus.failed (some stopped) at x)

Halted-trans : (x y z : TurnRow) → Halted x y → Halted y z → Halted x z
Halted-trans x y z h as_it_was = h
Halted-trans x y z as_it_was (halted at a) = halted at a
Halted-trans x y z (halted at a) (halted at' b) = absurd (cc)

-- The interruption of one Turn.
interrupt_turn-Runs :
    (t : TurnRow) (db : Db) {u : Unit} {db' : Db}
    → Runs (interrupt_turn t) db u db'
    → (at : Time) × (db'.turns
        ≡ update_where
            (λ r. r.id == t.id && is_active r)
            (finished TurnStatus.failed (some stopped) at)
            db.turns)
unfolding interrupt_turn apply_event requested
interrupt_turn-Runs t db h =
    let (u1, db1, h1, k1) = bind-Runs _ _ db h in
    let (u2, db2, h2, k2) = bind-Runs _ _ db1 k1 in
    let same1 = close_open_effects-turns t.session_id t.id db h1 in
    let (quiet, answered) = close_orphan_tool_calls-Runs t.session_id t.id db1 h2 in
    let last =
      terminal-Terminated t.session_id t.id _ TurnStatus.failed (some stopped) _ _ db2 (λ e. refl)
        refl k2 in
    (
      last.at,
      last.turns
          ∙ ap
              (update_where (λ r. r.id == t.id && is_active r)
                (finished TurnStatus.failed (some stopped) last.at))
              (quiet.0 ∙ same1),
    )

two_of : (a b : Bool) → (a && b) ≡ true → b ≡ true
two_of a b h = ground arith

-- Each active Turn is listed.
abbrev Awaits : List TurnRow → List TurnRow → Type 0
Awaits ts = All (λ x. is_active x ≡ true → any (named x.id) ts ≡ true)

remaining :
    (a b : ℕ) (i rest : Bool)
    → (a == b && i) ≡ false
    → i ≡ true
    → (b == a || rest) ≡ true
    → rest ≡ true
remaining a b i rest h k l = ground arith

interrupt-Awaits :
    (t : TurnRow) (ts xs : List TurnRow) (at : Time)
    → Awaits (t ∷ ts) xs
    → Awaits ts (
        update_where
          (λ r. r.id == t.id && is_active r)
          (finished TurnStatus.failed (some stopped) at)
          xs)
unfolding any
interrupt-Awaits t ts xs at h =
    All-update_where _ _ (finished TurnStatus.failed (some stopped) at) xs (
      All-imp _ _ xs h (λ x k. (
        λ hit still. absurd (cc),
        λ miss still. remaining x.id t.id (is_active x) _ miss still (k still),
      )))

interrupt-Halted :
    (t : TurnRow) (xs : List TurnRow) (at : Time)
    → Updated Halted xs (
        update_where
          (λ r. r.id == t.id && is_active r)
          (finished TurnStatus.failed (some stopped) at)
          xs)
interrupt-Halted t xs at =
    Updated-update_where Halted (λ x. as_it_was) _ _ xs
      (All-of _ xs (λ x k. halted at (two_of (x.id == t.id) (is_active x) k)))

length-update_where :
    (p : TurnRow → Bool) (f : TurnRow → TurnRow) (xs : List TurnRow)
    → length (update_where p f xs) ≡ length xs
unfolding update_where
length-update_where p f [] = refl
length-update_where p f (x ∷ xs) = ground (arith, length-update_where p f xs)

-- The Turns after an interruption: no more of them, and each as it was or halted.
abbrev pub Halts : List TurnRow → List TurnRow → Type 0
Halts xs ys = Updated Halted xs ys × (length ys ≡ length xs)

Halts-refl : (xs : List TurnRow) → Halts xs xs
Halts-refl xs = (Updated-refl Halted (λ x. as_it_was) xs, refl)

interrupt_all-Runs :
    (ts : List TurnRow) (db : Db) {u : Unit} {db' : Db}
    → Awaits ts db.turns
    → Runs (for_each interrupt_turn ts) db u db'
    → Awaits [] db'.turns × Halts db.turns db'.turns
unfolding for_each
interrupt_all-Runs [] db {db' = db'} waits h =
    let same : db.turns ≡ db'.turns = ap (λ d. d.turns) (sym (pure-Runs _ db h).1) in
    (subst (Awaits []) same waits, subst (Halts db.turns) same (Halts-refl db.turns))
interrupt_all-Runs (t ∷ ts) db {db' = db'} waits h =
    let (u1, db1, h1, k1) = bind-Runs _ _ db h in
    let (at, moved) = interrupt_turn-Runs t db h1 in
    let (none_left, halts) =
      interrupt_all-Runs ts db1
        (subst (Awaits ts) (sym moved) (interrupt-Awaits t ts db.turns at waits)) k1 in
    (
      none_left,
      (
        Updated-trans Halted Halted-trans db.turns db1.turns db'.turns
            (subst (Updated Halted db.turns) (sym moved) (interrupt-Halted t db.turns at)) halts.0,
        halts.1 ∙ ap length moved ∙ length-update_where _ _ db.turns,
      ),
    )

more :
    (b : Bool) (id : Uid) (x : TurnRow) (l : List TurnRow)
    → any (named id) l ≡ true
    → any (named id) (if b then x ∷ l else l) ≡ true
unfolding any
more true id x l h = ground arith
more false id x l h = h

active-Awaits : (xs : List TurnRow) → Awaits (keep is_active xs) xs
unfolding keep any
active-Awaits [] = tt
active-Awaits (x ∷ xs) = (
  λ h.
      subst (λ b. any (named x.id) (if b then x ∷ keep is_active xs else keep is_active xs) ≡ true)
        (sym h) (ground (arith, ==_refl x.id)),
  All-imp _ _ xs (active-Awaits xs) (λ y k h. more (is_active x) y.id x (keep is_active xs) (k h)),
)

idle : (b : Bool) → (b ≡ true → false ≡ true) → b ≡ false
idle b h = ground arith

Awaits-none : (xs : List TurnRow) → Awaits [] xs → any is_active xs ≡ false
unfolding any
Awaits-none xs h = any-false is_active xs (All-imp _ _ xs h (λ x k. idle (is_active x) k))

-- Where the recovery of interrupted work succeeds, no Turn is active after it; there are as many Turns
-- as before; and each of them is as it was, or was active and has failed by the stop of the Hub.
pub recover_interrupted_work_lem :
    (db db' : Db)
    → recover_interrupted_work db ≡ ok (tt, db')
    → (any is_active db'.turns ≡ false)
      × (length db'.turns ≡ length db.turns)
      × Updated Halted db.turns db'.turns
unfolding recover_interrupted_work drop_transient
recover_interrupted_work_lem db db' h =
    let (u1, db1, h1, k1) = bind-Runs _ _ db h in
    let (ts, db2, h2, k2) = bind-Runs _ _ db1 k1 in
    let eq1 = modify-Runs _ db h1 in
    let (same2, eq2) = gets-Runs _ db1 h2 in
    let here : db2.turns ≡ db.turns = ap (λ d. d.turns) eq2 ∙ ap (λ d. d.turns) eq1 in
    let listed : ts ≡ keep is_active db.turns = same2 ∙ ap (λ d. keep is_active d.turns) eq1 in
    let (none_left, halts) =
      interrupt_all-Runs ts db2
        (subst (Awaits ts) (sym here)
          (subst (λ l. Awaits l db.turns) (sym listed) (active-Awaits db.turns)))
        k2 in
    (
      Awaits-none db'.turns none_left,
      halts.1 ∙ ap length here,
      subst (λ l. Updated Halted l db'.turns) here halts.0,
    )
