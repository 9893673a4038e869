-- ===== src/Store/Session/Steps/Actions.antt =====
-- crates/mews-store/src/sessions.rs: the operations on effects and the transcript move along every
-- relation that their single changes move along.
use mews.Prelude.{String, Option, none, List, any, any_imp, ◌≡◌, true, arith}
use mews.Protocol.Events.Journal.{EffectRequest, EventActor}
use mews.Protocol.Messages.{
  AssistantResponse, ReasoningProvenance, ReasoningVisibility, ToolCall, ToolResult,
}
use mews.Protocol.Values.{Uid}
use mews.Store.Feed.{prune_client_events}
use mews.Store.Session.Actions.{
  EffectOutcome, HarnessObservationInput, append_assistant_response_with_tool_calls,
  append_harness_observations, append_observation, append_reasoning, append_response_in,
  append_tool_requested, append_tool_result, complete_tool_execution, finish_effect,
  finish_effect_in, mark_effect_started, mark_effect_started_in, outcome_event, prune_feed,
  request_call, schedule_effect, schedule_effect_in, start_effect, unless_observed,
}
use mews.Store.Tables.{Db}
use mews.Store.Tx.{Tx, Moves, Moves-modify, Moves-bind}
use mews.Store.Tx.Yields.{Leaves-after}
use mews.Store.Session.Steps.{Justified, Moves-read, checked-Leaves}
use mews.Store.Session.Steps.Entries.{validate_active_turn-Moves}
use mews.Store.Session.Steps.Started.{shows_started, find-Shown, require_some-Leaves}
use mews.Store.Session.Steps.Record.{
  Records, order, parts, record_applied-Leaves, turn_actor-Moves, utc_now-Moves,
}

module _ {R : Db → Db → Type 0} (r : Records R) where
  pub schedule_effect_in-Moves :
      (s t : Uid) (e : EffectRequest) → Moves R (schedule_effect_in s t e)
  unfolding schedule_effect_in
  schedule_effect_in-Moves s t e = search (parts) depth 12

  pub mark_effect_started_in-Moves : (s t o : Uid) → Moves R (mark_effect_started_in s t o)
  unfolding mark_effect_started_in
  mark_effect_started_in-Moves s t o = search (parts) depth 12

  -- The outcome of an effect needs it started, or failing.
  outcome-Justified :
      (t o : Uid) (e : EffectOutcome) (db : Db)
      → r.projects.begun o db
      → Justified r.projects (outcome_event o t e) db
  outcome-Justified t o (EffectOutcome.succeeded v) db h = h
  outcome-Justified t o (EffectOutcome.failed v) db h = tt
  outcome-Justified t o (EffectOutcome.uncertain v) db h = h

  -- A started effect is so still where the recording of an event has moved to.
  started-stays :
      (o : Uid) (db db1 db2 : Db)
      → any (shows_started o) db.effects ≡ true
      → R db db1
      → R db1 db2
      → r.projects.begun o db2
  started-stays o db db1 db2 shown h k =
      r.projects.stays o db db2 ((order r).transitive db db1 db2 h k) (r.projects.checks o db shown)

  pub finish_effect_in-Moves :
      (s t o : Uid) (e : EffectOutcome) → Moves R (finish_effect_in s t o e)
  unfolding finish_effect_in
  finish_effect_in-Moves s t o e = record {
    at = λ db. checked-Leaves R _ _ _ db (λ owns.
        (let shown : any (shows_started o) db.effects ≡ true =
            any_imp _ (shows_started o) db.effects owns (λ x k. ground arith) in
          Leaves-after (order r) _ _ db (turn_actor-Moves r s t _) (λ actor db1 h.
            record_applied-Leaves r s actor _ none db1
              (λ db2 k. outcome-Justified t o e db2 (started-stays o db db1 db2 shown h k)))));
  }

  pub schedule_effect-Moves : (s t : Uid) (e : EffectRequest) → Moves R (schedule_effect s t e)
  unfolding schedule_effect
  schedule_effect-Moves s t e = search (parts, schedule_effect_in-Moves) depth 12

  pub mark_effect_started-Moves : (s t o : Uid) → Moves R (mark_effect_started s t o)
  unfolding mark_effect_started
  mark_effect_started-Moves s t o = search (parts, mark_effect_started_in-Moves) depth 12

  pub start_effect-Moves : (s t : Uid) (e : EffectRequest) → Moves R (start_effect s t e)
  unfolding start_effect
  start_effect-Moves s t e =
      search (parts, schedule_effect_in-Moves, mark_effect_started_in-Moves) depth 12

  pub finish_effect-Moves : (s t o : Uid) (e : EffectOutcome) → Moves R (finish_effect s t o e)
  unfolding finish_effect
  finish_effect-Moves s t o e = search (parts, finish_effect_in-Moves) depth 12

  pub complete_tool_execution-Moves :
      (s t : Uid) (x : ToolResult) → Moves R (complete_tool_execution s t x)
  unfolding complete_tool_execution
  complete_tool_execution-Moves s t x =
      Moves-bind (order r) _ _ (validate_active_turn-Moves (order r) s t) (λ u.
        Moves-read _ _ (λ db. require_some-Leaves R _ _ _ db (λ row found.
          Leaves-after (order r) _ _ db (turn_actor-Moves r s t _) (λ actor db1 h.
            record_applied-Leaves r s actor _ none db1 (λ db2 k.
              started-stays row.operation_id db db1 db2 (find-Shown _ db.effects found) h k)))))

  pub append_tool_result-Moves : (s t : Uid) (x : ToolResult) → Moves R (append_tool_result s t x)
  unfolding append_tool_result
  append_tool_result-Moves s t x = search (parts) depth 12

  pub append_tool_requested-Moves :
      (s t : Uid) (c : ToolCall) → Moves R (append_tool_requested s t c)
  unfolding append_tool_requested
  append_tool_requested-Moves s t c = search (parts) depth 12

  pub request_call-Moves :
      (s t : Uid) (a : EventActor) (c : ToolCall) → Moves R (request_call s t a c)
  unfolding request_call
  request_call-Moves s t a c = search (parts) depth 12

  pub append_response_in-Moves :
      (s t : Uid) (x : AssistantResponse) (cs : List ToolCall)
      → Moves R (append_response_in s t x cs)
  unfolding append_response_in
  append_response_in-Moves s t x cs = search (parts, request_call-Moves) depth 12

  pub prune_feed-Moves : Moves R (prune_feed)
  unfolding prune_feed
  prune_feed-Moves =
      Moves-bind (order r) _ _ (utc_now-Moves r.journals)
        (λ now. Moves-modify _ (λ db. r.projects.feed (prune_client_events now db.feed) db))

  pub append_assistant_response_with_tool_calls-Moves :
      (s t : Uid) (x : AssistantResponse) (cs : List ToolCall)
      → Moves R (append_assistant_response_with_tool_calls s t x cs)
  unfolding append_assistant_response_with_tool_calls
  append_assistant_response_with_tool_calls-Moves s t x cs =
      search (parts, append_response_in-Moves, prune_feed-Moves) depth 12

  pub unless_observed-Moves :
      (s : Uid) (key : Option String) (m : Tx Unit) → Moves R m → Moves R (unless_observed s key m)
  unfolding unless_observed
  unless_observed-Moves s key m h = search parts depth 12

  pub append_reasoning-Moves :
      (s t : Uid) (x : String) (v : ReasoningVisibility) (p : ReasoningProvenance)
      (k : Option String)
      → Moves R (append_reasoning s t x v p k)
  unfolding append_reasoning
  append_reasoning-Moves s t x v p k = search (parts, unless_observed-Moves) depth 12

  pub append_observation-Moves :
      (s t : Uid) (a : EventActor) (o : HarnessObservationInput)
      → Moves R (append_observation s t a o)
  unfolding append_observation
  append_observation-Moves s t a o = search (parts, unless_observed-Moves) depth 12

  pub append_harness_observations-Moves :
      (s t : Uid) (os : List HarnessObservationInput) → Moves R (append_harness_observations s t os)
  unfolding append_harness_observations
  append_harness_observations-Moves s t os = search (parts, append_observation-Moves) depth 12
