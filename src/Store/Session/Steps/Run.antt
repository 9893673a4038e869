-- ===== src/Store/Session/Steps/Run.antt =====
-- crates/mews-store/src/{sessions,turns,schema}.rs: any sequence of calls moves along a relation that
-- their single changes move along.
use mews.Prelude.{List, [], ◌∷◌, Option, String}
use mews.Protocol.Events.Client.{RuntimeSignal}
use mews.Store.Result.{Result, ok, err}
use mews.Store.Session.Acp.{append_acp_observation}
use mews.Store.Session.Calls.{Call, commit, kept, perform, quiet, run}
use mews.Store.Session.Signals.{append_runtime_signal_in}
use mews.Store.Session.Steps.Actions.{
  append_assistant_response_with_tool_calls-Moves, append_harness_observations-Moves,
  append_reasoning-Moves, append_tool_requested-Moves, append_tool_result-Moves,
  complete_tool_execution-Moves, finish_effect-Moves, mark_effect_started-Moves,
  schedule_effect-Moves, start_effect-Moves,
}
use mews.Store.Session.Steps.Entries.{change_feed-Moves, validate_client_event-Moves}
use mews.Store.Session.Steps.Finish.{
  finish_turn_with_stop_reason-Moves, record_turn_harness-Moves, recover_interrupted_work-Moves,
}
use mews.Store.Session.Steps.Record.{Records, order, parts}
use mews.Store.Session.Steps.Admission.{accept_turn_idempotent-Moves}
use mews.Store.Session.Steps.Sessions.{
  append_message_checked-Moves, bind_acp_session-Moves, bind_acp_session_with_observations-Moves,
  create_session-Moves, mark_acp_context_dispatched_with_observation-Moves,
  record_acp_observation_transaction-Moves, set_session_leaf_checked-Moves, set_session_model-Moves,
}
use mews.Store.Tables.{Db}
use mews.Store.Tx.{Tx, Leaves, Moves, Moves-bind, Moves-pure}

module _ {R : Db → Db → Type 0} (r : Records R) where
  quiet-Moves : {A : Type 0} (m : Tx A) → Moves R m → Moves R (quiet m)
  unfolding quiet
  quiet-Moves m h = Moves-bind (order r) m _ h (λ a. Moves-pure (order r) tt)

  append_runtime_signal_in-Moves :
      (s : RuntimeSignal) (key : Option String) → Moves R (append_runtime_signal_in s key)
  unfolding append_runtime_signal_in
  append_runtime_signal_in-Moves s key =
      search (parts, validate_client_event-Moves, change_feed-Moves, r.projects.feeds) depth 12

  perform-Moves : (c : Call) → Moves R (perform c)
  unfolding perform append_acp_observation
  perform-Moves (Call.create a h d) = quiet-Moves _ (create_session-Moves r a h d)
  perform-Moves (Call.set_model s m) = quiet-Moves _ (set_session_model-Moves r s m)
  perform-Moves (Call.append_message s l role c m o) =
      quiet-Moves _ (append_message_checked-Moves r s l role c m o)
  perform-Moves (Call.set_leaf s l k) = quiet-Moves _ (set_session_leaf_checked-Moves r s l k)
  perform-Moves (Call.accept q c) = quiet-Moves _ (accept_turn_idempotent-Moves r q c)
  perform-Moves (Call.record_harness t h) = record_turn_harness-Moves r t h
  perform-Moves (Call.append_response s t x cs) =
      quiet-Moves _ (append_assistant_response_with_tool_calls-Moves r s t x cs)
  perform-Moves (Call.append_requested s t c) = quiet-Moves _ (append_tool_requested-Moves r s t c)
  perform-Moves (Call.append_result s t x) = quiet-Moves _ (append_tool_result-Moves r s t x)
  perform-Moves (Call.complete_execution s t x) = complete_tool_execution-Moves r s t x
  perform-Moves (Call.reason s t x v p k) = append_reasoning-Moves r s t x v p k
  perform-Moves (Call.observe s t os) = append_harness_observations-Moves r s t os
  perform-Moves (Call.schedule s t e) = quiet-Moves _ (schedule_effect-Moves r s t e)
  perform-Moves (Call.mark_started s t o) = mark_effect_started-Moves r s t o
  perform-Moves (Call.start s t e) = quiet-Moves _ (start_effect-Moves r s t e)
  perform-Moves (Call.finish s t o e) = finish_effect-Moves r s t o e
  perform-Moves (Call.bind_acp q) = quiet-Moves _ (bind_acp_session-Moves r q)
  perform-Moves (Call.bind_observed q t) = bind_acp_session_with_observations-Moves r q t
  perform-Moves (Call.mark_dispatched s t a) =
      mark_acp_context_dispatched_with_observation-Moves r s t a
  perform-Moves (Call.observe_acp s t a k o) = record_acp_observation_transaction-Moves r s t a k o
  perform-Moves (Call.signal s k) = append_runtime_signal_in-Moves s k
  perform-Moves (Call.finish_turn t status error stop) =
      finish_turn_with_stop_reason-Moves r t status error stop
  perform-Moves Call.recover = recover_interrupted_work-Moves r

  kept_result : (db : Db) (x : Result (Unit {0} × Db)) → Leaves R db x → R db (kept db x)
  kept_result db (ok (u, db')) h = h
  kept_result db (err e) h = (order r).reflexive db

  pub commit-moves : (c : Call) (db : Db) → R db (commit c db)
  unfolding commit
  commit-moves c db = kept_result db (perform c db) ((perform-Moves c).at db)

  pub run-moves : (cs : List Call) (db : Db) → R db (run cs db)
  unfolding run
  run-moves [] db = (order r).reflexive db
  run-moves (c ∷ cs) db =
      (order r).transitive db (commit c db) _ (commit-moves c db) (run-moves cs (commit c db))
