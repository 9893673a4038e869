-- ===== src/Store/Session/Finish/Closed.antt =====
-- crates/mews-store/src/turns.rs, close_open_effects: which effects are open after it.
use mews.Prelude.{
  ℕ, String, Bool, true, false, Option, none, some, List, [], ◌∷◌, any, keep, count, All, All-both,
  All-imp, All-update_where, count-All, count-any, count, update_where, ◌≡◌, refl, ap, sym, ◌∙◌,
  subst, inl, inr, ◌==◌, ◌&&◌, ◌||◌, if◌then◌else◌, arith, Bool-cases, ==_refl,
}
use mews.Protocol.Events.Journal.{JournalEntry, JournalEvent, system_actor}
use mews.Protocol.Messages.{ToolResult}
use mews.Protocol.Values.{Uid}
use mews.Store.Journal.Laws.{gets-Runs, pure-Runs}
use mews.Store.Session.Apply.{apply_event}
use mews.Store.Session.Effects.{Closing, closable, closed_as, update_effects, with_end}
use mews.Store.Session.Finish.{
  by_time, close_effect, close_open_effects, insert_by_time, open_of, record_terminated_tool_result,
}
use mews.Store.Session.Progress.{SoundEffects, operates, update-Sound}
use mews.Store.Session.Record.{record_applied}
use mews.Store.Session.Recorded.{record_applied-Runs}
use mews.Store.Session.Recorded.Rows.{Untold, record_result-Runs, set_effect_terminal-Runs}
use mews.Store.Tables.{Db, EffectRow, is_open, is_started}
use mews.Store.Tx.{pure, for_each}
use mews.Store.Tx.Runs.{Runs, bind-Runs}

-- Each open effect of the Turn is listed.
abbrev pub Listed : Uid → List EffectRow → List EffectRow → Type 0
Listed t es = All (λ x. open_of t x ≡ true → any (operates x.operation_id) es ≡ true)

closed : (c : Closing) → is_open (closed_as c) ≡ false
closed Closing.succeeded = refl
closed Closing.failed = refl
closed Closing.uncertain = refl

first_of_four : (a b c d : Bool) → (a && b && c && d) ≡ true → a ≡ true
first_of_four a b c d h = ground arith

reopened : (c : Closing) (b : Bool) → (b && is_open (closed_as c)) ≡ true → ⊥
reopened Closing.succeeded b h = ground arith
reopened Closing.failed b h = ground arith
reopened Closing.uncertain b h = ground arith

others :
    (a b : ℕ) (rest done : Bool)
    → ((a == b) ≡ true → done ≡ true)
    → done ≡ false
    → (b == a || rest) ≡ true
    → rest ≡ true
others a b rest done h k l = ground arith

-- Once the first of the list is closed, the others list all that are open.
close-Listed :
    (s t : Uid) (first : EffectRow) (es : List EffectRow) (c : Closing) (e : JournalEntry)
    (raw : Option ToolResult) (xs : List EffectRow)
    → SoundEffects xs
    → count (closable s t first.operation_id) xs ≡ 1
    → Listed t (first ∷ es) xs
    → Listed t es (update_where (closable s t first.operation_id) (with_end (closed_as c) e raw) xs)
unfolding any
close-Listed s t first es c e raw xs sound one listed =
    All-update_where _ (closable s t first.operation_id) (with_end (closed_as c) e raw) xs (
      All-imp _ _ xs
        (All-both _ _ xs listed (
          count-All (operates first.operation_id) (closable s t first.operation_id)
            (closable s t first.operation_id) xs (λ x k. (first_of_four _ _ _ _ k, k))
            (sound.one_named first.operation_id) (count-any _ xs one)))
        (λ x k. (
          λ hit still. absurd (reopened c _ still),
          λ miss still. others x.operation_id first.operation_id _ _ k.1 miss (k.0 still),
        )))

insert_any :
    (p : EffectRow → Bool) (e : EffectRow) (fs : List EffectRow)
    → any p (insert_by_time e fs) ≡ (p e || any p fs)
unfolding insert_by_time any
insert_any p e [] = refl
insert_any p e (f ∷ fs) = ground (arith, insert_any p e fs)

any-by_time : (p : EffectRow → Bool) (es : List EffectRow) → any p (by_time es) ≡ any p es
unfolding by_time any
any-by_time p [] = refl
any-by_time p (e ∷ es) = insert_any p e (by_time es) ∙ ap (◌||◌ (p e)) (any-by_time p es)

taken :
    (b : Bool) (x : EffectRow) (l : List EffectRow) → b ≡ true → (if b then x ∷ l else l) ≡ x ∷ l
taken true x l h = refl
taken false x l h = absurd (cc)

more :
    (b : Bool) (p : EffectRow → Bool) (x : EffectRow) (l : List EffectRow)
    → any p l ≡ true
    → any p (if b then x ∷ l else l) ≡ true
unfolding any
more true p x l h = ground arith
more false p x l h = h

kept_Listed : (t : Uid) (xs : List EffectRow) → Listed t (keep (open_of t) xs) xs
unfolding keep any
kept_Listed t [] = tt
kept_Listed t (x ∷ xs) = (
  λ h.
      subst (λ (l : List EffectRow). any (operates x.operation_id) l ≡ true)
        (sym (taken (open_of t x) x (keep (open_of t) xs) h))
        (ground (arith, ==_refl x.operation_id)),
  All-imp _ _ xs (kept_Listed t xs)
      (λ y k h. more (open_of t x) (operates y.operation_id) x (keep (open_of t) xs) (k h)),
)

-- What ends the effect, and the result of the call that it ran.
terminal_status : Bool → Closing
terminal_status true = Closing.uncertain
terminal_status false = Closing.failed

terminate-Runs :
    (b : Bool) (s t o : Uid) (lost early : String) (db : Db) {u : Unit} {db' : Db}
    → Runs
        (record_applied s system_actor
          (if b
            then JournalEvent.effect_uncertain o t lost
            else JournalEvent.effect_failed o t early)
          none)
        db
        u
        db'
    → (e : JournalEntry) × (db1 : Db) × (db1.effects ≡ db.effects)
      × (count (closable s t o) db1.effects ≡ 1)
      × (db'.effects
          ≡ update_where
              (closable s t o)
              (with_end (closed_as (terminal_status b)) e none)
              db1.effects)
      × (db'.turns ≡ db.turns)
unfolding apply_event update_effects terminal_status
terminate-Runs true s t o lost early db h =
    let (e, db1, tells, same, k) = record_applied-Runs s _ _ _ db h in
    let (one, moved) =
      set_effect_terminal-Runs e o t Closing.uncertain none s db1 tells.session k in
    (e, db1, same.effects, one, ap (λ d. d.effects) moved, ap (λ d. d.turns) moved ∙ same.turns)
terminate-Runs false s t o lost early db h =
    let (e, db1, tells, same, k) = record_applied-Runs s _ _ _ db h in
    let (one, moved) = set_effect_terminal-Runs e o t Closing.failed none s db1 tells.session k in
    (e, db1, same.effects, one, ap (λ d. d.effects) moved, ap (λ d. d.turns) moved ∙ same.turns)

Untold-same : {a b : Db} → b ≡ a → Untold a b
Untold-same h = (ap (λ d. d.turns) h, ap (λ d. d.effects) h)

result-Runs :
    (s t : Uid) (b : Bool) (call tool : Option String) (db : Db) {u : Unit} {db' : Db}
    → Runs
        (elim call [
          | none ↦ pure tt
          | some c ↦ elim tool [ none ↦ pure tt | some x ↦ record_terminated_tool_result s t c x b ]
        ])
        db
        u
        db'
    → Untold db db'
unfolding record_terminated_tool_result
result-Runs s t b none tool db h = Untold-same (pure-Runs _ db h).1
result-Runs s t b (some c) none db h = Untold-same (pure-Runs _ db h).1
result-Runs s t b (some c) (some x) db h =
    let (r, named, added, quiet) = record_result-Runs s t c x _ b db h in quiet

close_effect-Listed :
    (s t : Uid) (first : EffectRow) (es : List EffectRow) (db : Db) {u : Unit} {db' : Db}
    → SoundEffects db.effects
    → Listed t (first ∷ es) db.effects
    → Runs (close_effect s t first) db u db'
    → Listed t es db'.effects
unfolding close_effect
close_effect-Listed s t first es db sound listed h =
    let (u1, db1, h1, k1) = bind-Runs _ _ db h in
    let (e, db2, same, one, moved, turned) =
      terminate-Runs (is_started first.status) s t _ _ _ db h1 in
    let quiet = result-Runs s t (is_started first.status) first.call_id first.tool db1 k1 in
    subst (Listed t es) (sym (quiet.1 ∙ moved)) (
      close-Listed s t first es (terminal_status (is_started first.status)) e none db2.effects
        (subst SoundEffects (sym same) sound) one (subst (Listed t (first ∷ es)) (sym same) listed))

close_effect-Sound :
    (s t : Uid) (first : EffectRow) (db : Db) {u : Unit} {db' : Db}
    → SoundEffects db.effects
    → Runs (close_effect s t first) db u db'
    → SoundEffects db'.effects
unfolding close_effect
close_effect-Sound s t first db sound h =
    let (u1, db1, h1, k1) = bind-Runs _ _ db h in
    let (e, db2, same, one, moved, turned) =
      terminate-Runs (is_started first.status) s t _ _ _ db h1 in
    let quiet = result-Runs s t (is_started first.status) first.call_id first.tool db1 k1 in
    subst SoundEffects (sym (quiet.1 ∙ moved))
      (update-Sound _ _ db2.effects (λ o x z. z) (subst SoundEffects (sym same) sound))

close_all-Listed :
    (s t : Uid) (es : List EffectRow) (db : Db) {u : Unit} {db' : Db}
    → SoundEffects db.effects
    → Listed t es db.effects
    → Runs (for_each (close_effect s t) es) db u db'
    → Listed t [] db'.effects
unfolding for_each
close_all-Listed s t [] db sound listed h =
    subst (λ d. Listed t [] d.effects) (sym (pure-Runs _ db h).1) listed
close_all-Listed s t (e ∷ es) db sound listed h =
    let (u1, db1, h1, k1) = bind-Runs _ _ db h in
    close_all-Listed s t es db1 (close_effect-Sound s t e db sound h1)
      (close_effect-Listed s t e es db sound listed h1) k1

none_Listed : (t : Uid) (xs : List EffectRow) → Listed t [] xs → any (open_of t) xs ≡ false
unfolding any
none_Listed t [] h = refl
none_Listed t (x ∷ xs) h = elim (Bool-cases (open_of t x)) [
  | inl still ↦ absurd (ground (arith, h.0 still))
  | inr shut ↦ ground (arith, none_Listed t xs h.1)
]

-- After it no effect of the Turn is open.
pub close_open_effects-Runs :
    (s t : Uid) (db : Db) {u : Unit} {db' : Db}
    → SoundEffects db.effects
    → Runs (close_open_effects s t) db u db'
    → any (open_of t) db'.effects ≡ false
unfolding close_open_effects
close_open_effects-Runs s t db sound h =
    let (es, db1, h1, k1) = bind-Runs _ _ db h in
    let (same, here) = gets-Runs _ db h1 in
    none_Listed t _ (
      close_all-Listed s t es db1 (subst (λ d. SoundEffects d.effects) (sym here) sound)
        (subst (λ l. Listed t l db1.effects) (sym same)
          (subst (λ d. Listed t (by_time (keep (open_of t) db.effects)) d.effects) (sym here)
            (All-imp _ _ db.effects (kept_Listed t db.effects)
              (λ x k still. any-by_time _ (keep (open_of t) db.effects) ∙ k still))))
        k1)

-- It leaves the Turns as they are.
close_effect-turns :
    (s t : Uid) (e : EffectRow) (db : Db) {u : Unit} {db' : Db}
    → Runs (close_effect s t e) db u db'
    → db'.turns ≡ db.turns
unfolding close_effect
close_effect-turns s t e db h =
    let (u1, db1, h1, k1) = bind-Runs _ _ db h in
    let (j, db2, same, one, moved, turned) = terminate-Runs (is_started e.status) s t _ _ _ db h1 in
    (result-Runs s t (is_started e.status) e.call_id e.tool db1 k1).0 ∙ turned

close_all-turns :
    (s t : Uid) (es : List EffectRow) (db : Db) {u : Unit} {db' : Db}
    → Runs (for_each (close_effect s t) es) db u db'
    → db'.turns ≡ db.turns
unfolding for_each
close_all-turns s t [] db h = ap (λ d. d.turns) (pure-Runs _ db h).1
close_all-turns s t (e ∷ es) db h =
    let (u1, db1, h1, k1) = bind-Runs _ _ db h in
    close_all-turns s t es db1 k1 ∙ close_effect-turns s t e db h1

pub close_open_effects-turns :
    (s t : Uid) (db : Db) {u : Unit} {db' : Db}
    → Runs (close_open_effects s t) db u db'
    → db'.turns ≡ db.turns
unfolding close_open_effects
close_open_effects-turns s t db h =
    let (es, db1, h1, k1) = bind-Runs _ _ db h in
    let (same, here) = gets-Runs _ db h1 in close_all-turns s t es db1 k1 ∙ ap (λ d. d.turns) here
