-- ===== src/Store/Session/Steps/Finish.antt =====
-- crates/mews-store/src/{turns,schema}.rs: the end of a Turn and the recovery move along every relation
-- that their single changes move along.
use mews.Prelude.{
  All, All-imp, All-keep, [], ◌∷◌, ◌≡◌, refl, true, sym, subst, Bool-cases, inl, inr, if◌then◌else◌,
  String, find, keep, ◌==◌, ◌&&◌, Bool, false, Option, none, List,
}
use mews.Protocol.Messages.{HarnessProvenance, SessionEntryPayload, ToolCall, ToolResult}
use mews.Protocol.Turns.{TurnStatus}
use mews.Protocol.Values.{Uid}
use mews.Store.Session.Finish.{
  close_call, close_effect, close_open_effects, close_orphan_tool_calls, finish_active,
  finish_again, finish_turn_with_stop_reason, open_of, raw_completion,
  record_interrupted_tool_processing, record_terminated_tool_result, select_turn, terminated_result,
  terminal_event, termination,
}
use mews.Store.Session.Recover.{
  drop_transient, interrupt_turn, record_turn_harness, recover_interrupted_work,
}
use mews.Store.Tables.{Db, EffectRow, TurnRow, is_active, is_started}
use mews.Protocol.Events.Journal.{JournalEvent}
use mews.Store.Session.Steps.{Justified, Moves-read, is_ordinary}
use mews.Store.Session.Steps.Started.{All-by_time, Shown, all_Shown}
use mews.Store.Tx.Yields.{Leaves-then}
use mews.Store.Tx.{
  for_each, pure, Leaves, Moves, Moves-modify, Moves-bind, Moves-option, Moves-pure, Moves-gets,
  Moves-when, Moves-require, Moves-require_some, Moves-for_each,
}
use mews.Store.Session.Steps.Record.{
  Records, order, parts, record_applied-Leaves, record_applied-Moves,
}

abbrev ended : Uid → EffectRow → Bool → JournalEvent
ended t e b =
    if b
    then JournalEvent.effect_uncertain e.operation_id t
        "Turn terminated before the effect reported an outcome"
    else JournalEvent.effect_failed e.operation_id t "Turn terminated before the effect started"

module _ {R : Db → Db → Type 0} (r : Records R) where
  pub record_terminated_tool_result-Moves :
      (s t : Uid) (c x : String) (u : Bool) → Moves R (record_terminated_tool_result s t c x u)
  unfolding record_terminated_tool_result
  record_terminated_tool_result-Moves s t c x u = search (parts) depth 12

  pub record_interrupted_tool_processing-Moves :
      (s t : Uid) (x : ToolResult) → Moves R (record_interrupted_tool_processing s t x)
  unfolding record_interrupted_tool_processing
  record_interrupted_tool_processing-Moves s t x = search (parts) depth 12

  pub terminated_result-Moves : (s t : Uid) (e : EffectRow) → Moves R (terminated_result s t e)
  terminated_result-Moves s t e =
      Moves-option (order r) e.call_id _ _ (Moves-pure (order r) tt) (λ call.
        Moves-option (order r) e.tool _ _ (Moves-pure (order r) tt)
          (λ tool. record_terminated_tool_result-Moves s t call tool _))

  -- The end of an open effect: it fails, unless it has been started.
  pub BegunIfStarted : EffectRow → Db → Type 0
  BegunIfStarted e db = is_started e.status ≡ true → r.projects.begun e.operation_id db

  termination-Justified :
      (t : Uid) (e : EffectRow) (db : Db)
      → BegunIfStarted e db
      → Justified r.projects (termination t e) db
  unfolding BegunIfStarted
  termination-Justified t e db h = elim (Bool-cases (is_started e.status)) [
    | inl started ↦ subst (λ b. Justified r.projects (ended t e b) db) (sym started) (h started)
    | inr waits ↦ subst (λ b. Justified r.projects (ended t e b) db) (sym waits) tt
  ]

  still_begun : (e : EffectRow) (a b : Db) → R a b → BegunIfStarted e a → BegunIfStarted e b
  unfolding BegunIfStarted
  still_begun e a b h k started = r.projects.stays e.operation_id a b h (k started)

  pub close_effect-Leaves :
      (s t : Uid) (e : EffectRow) (db : Db)
      → BegunIfStarted e db
      → Leaves R db (close_effect s t e db)
  unfolding close_effect
  close_effect-Leaves s t e db h =
      Leaves-then (order r) _ _ db
        (record_applied-Leaves r s _ _ none db
          (λ db1 moved. termination-Justified t e db1 (still_begun e db db1 moved h)))
        (λ u db1 k. (terminated_result-Moves s t e).at db1)

  close_effects-Leaves :
      (s t : Uid) (es : List EffectRow) (db : Db)
      → All (λ e. BegunIfStarted e db) es
      → Leaves R db (for_each (close_effect s t) es db)
  unfolding for_each pure
  close_effects-Leaves s t [] db h = (order r).reflexive db
  close_effects-Leaves s t (e ∷ es) db h =
      Leaves-then (order r) _ _ db (close_effect-Leaves s t e db h.0) (λ u db1 k.
        close_effects-Leaves s t es db1 (All-imp _ _ es h.1 (λ x l. still_begun x db db1 k l)))

  pub close_open_effects-Moves : (s t : Uid) → Moves R (close_open_effects s t)
  unfolding close_open_effects BegunIfStarted
  close_open_effects-Moves s t = Moves-read _ _ (λ db. close_effects-Leaves s t _ db (
      All-by_time (λ e. BegunIfStarted e db) (keep (open_of t) db.effects)
        (All-keep (λ e. BegunIfStarted e db) (open_of t) db.effects
          (All-imp (Shown db.effects) (λ e. BegunIfStarted e db) db.effects (all_Shown db.effects)
            (λ e shown started. r.projects.checks e.operation_id db (shown started))))))

  pub close_call-Moves :
      (s t : Uid) (ps : List SessionEntryPayload) (rs : List (Option ToolResult)) (c : ToolCall)
      → Moves R (close_call s t ps rs c)
  unfolding close_call
  close_call-Moves s t ps rs c = Moves-when (order r) _ _ (
      Moves-option (order r) (raw_completion c.call_id rs) _ _
        (record_terminated_tool_result-Moves s t c.call_id c.tool false)
        (record_interrupted_tool_processing-Moves s t))

  pub close_orphan_tool_calls-Moves : (s t : Uid) → Moves R (close_orphan_tool_calls s t)
  unfolding close_orphan_tool_calls
  close_orphan_tool_calls-Moves s t = search (parts, close_call-Moves) depth 12

  pub select_turn-Moves : (t : Uid) → Moves R (select_turn t)
  unfolding select_turn
  select_turn-Moves t = search (parts) depth 12

  pub finish_again-Moves : (t : Uid) (status : TurnStatus) → Moves R (finish_again t status)
  unfolding finish_again
  finish_again-Moves t status = search (parts, select_turn-Moves) depth 12

  terminal_is_ordinary :
      (t : Uid) (status : TurnStatus) (error stop : Option String)
      → is_ordinary (terminal_event t status error stop) ≡ true
  terminal_is_ordinary t TurnStatus.running error stop = refl
  terminal_is_ordinary t TurnStatus.completed error stop = refl
  terminal_is_ordinary t TurnStatus.failed error stop = refl
  terminal_is_ordinary t TurnStatus.cancelled error stop = refl

  pub finish_active-Moves :
      (s t : Uid) (status : TurnStatus) (error stop : Option String)
      → Moves R (finish_active s t status error stop)
  unfolding finish_active
  finish_active-Moves s t status error stop =
      search (parts, terminal_is_ordinary, close_open_effects-Moves, close_orphan_tool_calls-Moves)
        depth 12

  pub finish_turn_with_stop_reason-Moves :
      (t : Uid) (status : TurnStatus) (error stop : Option String)
      → Moves R (finish_turn_with_stop_reason t status error stop)
  unfolding finish_turn_with_stop_reason
  finish_turn_with_stop_reason-Moves t status error stop =
      Moves-bind (order r) _ _ (Moves-require (order r) _ _) (λ u.
        Moves-bind (order r) _ _
          (Moves-gets (order r) (λ db. find (λ row. row.id == t && is_active row) db.turns))
          (λ found.
            Moves-option (order r) found _ _ (finish_again-Moves t status)
              (λ row. finish_active-Moves row.session_id t status error stop)))

  pub interrupt_turn-Moves : (t : TurnRow) → Moves R (interrupt_turn t)
  unfolding interrupt_turn
  interrupt_turn-Moves t =
      search (parts, close_open_effects-Moves, close_orphan_tool_calls-Moves) depth 12

  pub recover_interrupted_work-Moves : Moves R recover_interrupted_work
  unfolding recover_interrupted_work drop_transient
  recover_interrupted_work-Moves =
      Moves-bind (order r) _ _ (Moves-modify drop_transient (λ db. r.projects.feed _ db)) (λ u.
        Moves-bind (order r) _ _ (Moves-gets (order r) (λ db. keep is_active db.turns))
          (λ ts. Moves-for_each (order r) interrupt_turn ts interrupt_turn-Moves))

  pub record_turn_harness-Moves :
      (t : Uid) (h : HarnessProvenance) → Moves R (record_turn_harness t h)
  unfolding record_turn_harness
  record_turn_harness-Moves t h = Moves-bind (order r) _ _ (Moves-require (order r) _ _) (λ u.
      Moves-bind (order r) _ _
        (Moves-gets (order r) (λ db. find (λ row. row.id == t && is_active row) db.turns))
        (λ found. Moves-bind (order r) _ _ (Moves-require_some (order r) found _) (λ row.
          Moves-option (order r) row.harness _ _
            (record_applied-Moves r row.session_id _ _ none refl)
            (λ name. Moves-require (order r) _ _))))
