-- ===== src/Store/Session/Finish/Ended.antt =====
-- crates/mews-store/src/turns.rs, finish_turn_with_stop_reason: what the last event of a Turn leaves.
use mews.Prelude.{
  String, Bool, true, false, Option, none, some, List, [], ◌∷◌, ◌++◌, any, any_imp, All, All-imp,
  All-update_where, count, count-All, count-any, update_where, ◌≡◌, refl, ap, sym, ◌∙◌, subst, ◌==◌,
  ◌&&◌, arith,
}
use mews.Protocol.Events.Client.{ClientEventKind}
use mews.Protocol.Events.Journal.{JournalEntry, JournalEvent, system_actor}
use mews.Protocol.Messages.{SessionEntryPayload, ToolCall}
use mews.Protocol.Turns.{TurnStatus}
use mews.Protocol.Values.{Time, Uid}
use mews.Store.Session.Active.{SoundTurns, named}
use mews.Store.Session.Apply.{apply_event}
use mews.Store.Session.Finish.{
  is_completed, open_of, requested_calls, requested, session_payloads, terminal_event,
}
use mews.Store.Session.Finish.Answered.{
  Adds-payloads, payloads_of, completed-append, requested-append,
}
use mews.Store.Session.Record.{record_applied}
use mews.Store.Session.Recorded.{record_applied-Runs}
use mews.Store.Session.Recorded.Rows.{project_turn_terminal-Runs}
use mews.Store.Session.Turns.{finished, has_ended, project_turn_terminal}
use mews.Store.Tables.{Db, TurnRow, is_active}
use mews.Store.Tx.Runs.{Runs}

-- The row of the Turn has the status and a date of its end.
abbrev pub Ended : Uid → TurnStatus → TurnRow → Type 0
Ended t status r = named t r ≡ true → (r.status ≡ status) × (is_active r ≡ false)

-- A Turn that is finished: it has a row, and each row of its ID has the status and is dated; none of
-- its effects is open; and each tool call that it has requested has a result.
pub record Finished (t : Uid) (status : TurnStatus) (s : Uid) (db : Db) : Type 0 where
  pub there : any (named t) db.turns ≡ true
  pub ended : All (Ended t status) db.turns
  pub closed : any (open_of t) db.effects ≡ false
  pub answered :
      All
        (λ c. is_completed t c.call_id (session_payloads s db) ≡ true)
        (requested_calls t (session_payloads s db))

-- The Turn has ended in the tables after its last event.
pub record Terminated (t : Uid) (status : TurnStatus) (error : Option String) (s : Uid) (a b : Db)
    : Type 0 where
  pub at : Time
  pub one : count (λ r. r.id == t && is_active r) a.turns ≡ 1
  pub turns :
      b.turns ≡ update_where (λ r. r.id == t && is_active r) (finished status error at) a.turns
  pub effects : b.effects ≡ a.effects
  pub payload : SessionEntryPayload
  pub no_call : requested t payload ≡ none
  pub entry : session_payloads s b ≡ session_payloads s a ++ payload ∷ []

payloads_same :
    (s : Uid) (a b : Db) → b.entries ≡ a.entries → session_payloads s b ≡ session_payloads s a
unfolding session_payloads
payloads_same s a b h = ap (payloads_of s) h

pub terminal-Terminated :
    (s t : Uid) (event : JournalEvent) (status : TurnStatus) (error : Option String)
    (p : SessionEntryPayload) (kind : ClientEventKind) (db : Db) {u : Unit} {db' : Db}
    → ((e : JournalEntry) → apply_event e s event ≡ project_turn_terminal e t status error p kind)
    → requested t p ≡ none
    → Runs (record_applied s system_actor event none) db u db'
    → Terminated t status error s db db'
terminal-Terminated s t event status error p kind db {u} {db'} is_it no_call h =
    let (e, db1, tells, same, k) = record_applied-Runs s _ _ _ db h in
    let (one, turned, quiet, added) =
      project_turn_terminal-Runs e t status error p kind s db1 tells.session
        (subst (λ m. Runs m db1 u db') (is_it e) k) in
    record {
      at = e.recorded_at;
      one = subst (λ l. count (λ r. r.id == t && is_active r) l ≡ 1) same.turns one;
      turns =
          turned
          ∙ ap (update_where (λ r. r.id == t && is_active r) (finished status error e.recorded_at))
              same.turns;
      effects = quiet ∙ same.effects;
      payload = p;
      no_call = no_call;
      entry =
          Adds-payloads s p db1 db' added
          ∙ ap (λ l. l ++ p ∷ []) (payloads_same s db db1 same.entries);
    }

pub event-Terminated :
    (s t : Uid) (status : TurnStatus) (error stop : Option String) (db : Db) {u : Unit} {db' : Db}
    → has_ended status ≡ true
    → Runs (record_applied s system_actor (terminal_event t status error stop) none) db u db'
    → (error' : Option String) × Terminated t status error' s db db'
unfolding apply_event requested
event-Terminated s t TurnStatus.running error stop db ended h = absurd (cc)
event-Terminated s t TurnStatus.completed error stop db ended h =
    (none, terminal-Terminated s t _ TurnStatus.completed none _ _ db (λ e. refl) refl h)
event-Terminated s t TurnStatus.failed error stop db ended h =
    (_, terminal-Terminated s t _ TurnStatus.failed _ _ _ db (λ e. refl) refl h)
event-Terminated s t TurnStatus.cancelled error stop db ended h =
    (none, terminal-Terminated s t _ TurnStatus.cancelled none _ _ db (λ e. refl) refl h)

two_of : (a b : Bool) → (a && b) ≡ true → (a ≡ true) × (b ≡ true)
two_of a b h = ground arith

still_there :
    (t : Uid) (q : TurnRow → Bool) (f : TurnRow → TurnRow) (xs : List TurnRow)
    → ((x : TurnRow) → named t (f x) ≡ named t x)
    → any (named t) (update_where q f xs) ≡ any (named t) xs
unfolding any update_where
still_there t q f [] h = refl
still_there t q f (x ∷ xs) h = ground (arith, h x, still_there t q f xs h)

unrequested :
    (t : Uid) (p : SessionEntryPayload) → requested t p ≡ none → requested_calls t (p ∷ []) ≡ []
unfolding requested_calls
unrequested t p h = ap (λ (o : Option ToolCall). elim o [ none ↦ [] | some c ↦ c ∷ [] ]) h

-- The last event of a Turn whose effects are closed and whose calls have their results.
pub Terminated-Finished :
    (t : Uid) (status : TurnStatus) (error : Option String) (s : Uid) (a b : Db)
    → SoundTurns a.turns
    → any (open_of t) a.effects ≡ false
    → All
        (λ c. is_completed t c.call_id (session_payloads s a) ≡ true)
        (requested_calls t (session_payloads s a))
    → Terminated t status error s a b
    → Finished t status s b
Terminated-Finished t status error s a b sound shut answered h =
    let q : TurnRow → Bool = λ r. r.id == t && is_active r in
    let f = finished status error h.at in
    let hit = count-any q a.turns h.one in
    let calls : requested_calls t (session_payloads s b)
        ≡ requested_calls t (session_payloads s a) =
      ap (requested_calls t) h.entry
      ∙ requested-append t (session_payloads s a) (h.payload ∷ [])
          (unrequested t h.payload h.no_call) in
    record {
      there =
          ap (any (named t)) h.turns
          ∙ still_there t q f a.turns (λ x. refl)
          ∙ any_imp q (named t) a.turns hit (λ x k. (two_of (x.id == t) (is_active x) k).0);
      ended = subst (All (Ended t status)) (sym h.turns) (
          All-update_where (Ended t status) q f a.turns (
            All-imp _ _ a.turns
              (count-All (named t) is_active q a.turns (λ x k. two_of (x.id == t) (is_active x) k)
                (sound.one_named t) hit)
              (λ x active. (λ k l. (refl, refl), λ k l. absurd (ground (arith, active l))))));
      closed = ap (any (open_of t)) h.effects ∙ shut;
      answered =
          subst (All (λ c. is_completed t c.call_id (session_payloads s b) ≡ true)) (sym calls) (
            All-imp _ _ (requested_calls t (session_payloads s a)) answered (λ c k.
              subst (λ l. is_completed t c.call_id l ≡ true) (sym h.entry)
                (completed-append t c.call_id (session_payloads s a) (h.payload ∷ []) k)));
    }
