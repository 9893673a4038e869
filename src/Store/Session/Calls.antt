-- ===== src/Store/Session/Calls.antt =====
-- crates/mews-store/src/{sessions,turns,schema,delivery}.rs: the calls that change a Session, each a
-- transaction that is undone on an error.
use mews.Prelude.{String, Option, List, [], ◌∷◌}
use mews.Protocol.Events.Client.{RuntimeSignal}
use mews.Protocol.Events.Journal.{EffectRequest}
use mews.Protocol.Messages.{
  AssistantResponse, HarnessProvenance, MessageContent, MessageRole, MessageSource,
  ReasoningProvenance, ReasoningVisibility, ToolCall, ToolResult,
}
use mews.Protocol.Turns.{AcpObservation, TurnStatus}
use mews.Protocol.Values.{Uid, Value}
use mews.Store.Result.{Result, ok, err}
use mews.Store.Session.Acp.{
  BindingRequest, append_acp_observation, bind_acp_session, bind_acp_session_with_observations,
  mark_acp_context_dispatched_with_observation,
}
use mews.Store.Session.Actions.{
  EffectOutcome, HarnessObservationInput, append_assistant_response_with_tool_calls,
  append_harness_observations, append_reasoning, append_tool_requested, append_tool_result,
  complete_tool_execution, finish_effect, mark_effect_started, schedule_effect, start_effect,
}
use mews.Store.Session.Admission.{TurnRequest, accept_turn_idempotent}
use mews.Store.Session.Finish.{finish_turn_with_stop_reason}
use mews.Store.Session.Recover.{record_turn_harness, recover_interrupted_work}
use mews.Store.Session.Sessions.{
  append_message_checked, create_session, set_session_leaf_checked, set_session_model,
}
use mews.Store.Session.Signals.{append_runtime_signal_in}
use mews.Store.Tables.{Db}
use mews.Store.Tx.{Tx, ◌>>=◌, pure}

pub data Call : Type 0 where
  create : Uid → Uid → String → Call
  set_model : Uid → Option String → Call
  append_message : Uid → Option Uid → MessageRole → MessageContent → Value → MessageSource → Call
  set_leaf : Uid → Option Uid → Option Uid → Call
  accept : TurnRequest → MessageContent → Call
  record_harness : Uid → HarnessProvenance → Call
  append_response : Uid → Uid → AssistantResponse → List ToolCall → Call
  append_requested : Uid → Uid → ToolCall → Call
  append_result : Uid → Uid → ToolResult → Call
  complete_execution : Uid → Uid → ToolResult → Call
  reason : Uid → Uid → String → ReasoningVisibility → ReasoningProvenance → Option String → Call
  observe : Uid → Uid → List HarnessObservationInput → Call
  schedule : Uid → Uid → EffectRequest → Call
  mark_started : Uid → Uid → Uid → Call
  start : Uid → Uid → EffectRequest → Call
  finish : Uid → Uid → Uid → EffectOutcome → Call
  bind_acp : BindingRequest → Call
  bind_observed : BindingRequest → Uid → Call
  mark_dispatched : Uid → Uid → String → Call
  observe_acp : Uid → Uid → Option String → Option String → AcpObservation → Call
  signal : RuntimeSignal → Option String → Call
  finish_turn : Uid → TurnStatus → Option String → Option String → Call
  recover : Call

-- The call without its answer.
unfoldable pub quiet : {A : Type 0} → Tx A → Tx Unit
quiet m = m >>= λ a. pure tt

unfoldable pub perform : Call → Tx Unit
unfolding quiet
perform (create agent host directory) = quiet (create_session agent host directory)
perform (set_model session model) = quiet (set_session_model session model)
perform (append_message session leaf role content metadata source) =
    quiet (append_message_checked session leaf role content metadata source)
perform (set_leaf session expected leaf) = quiet (set_session_leaf_checked session expected leaf)
perform (accept request resolved) = quiet (accept_turn_idempotent request resolved)
perform (record_harness turn harness) = record_turn_harness turn harness
perform (append_response session turn response calls) =
    quiet (append_assistant_response_with_tool_calls session turn response calls)
perform (append_requested session turn call) = quiet (append_tool_requested session turn call)
perform (append_result session turn result) = quiet (append_tool_result session turn result)
perform (complete_execution session turn result) = complete_tool_execution session turn result
perform (reason session turn text visibility provenance key) =
    append_reasoning session turn text visibility provenance key
perform (observe session turn observations) = append_harness_observations session turn observations
perform (schedule session turn effect) = quiet (schedule_effect session turn effect)
perform (mark_started session turn operation) = mark_effect_started session turn operation
perform (start session turn effect) = quiet (start_effect session turn effect)
perform (finish session turn operation outcome) = finish_effect session turn operation outcome
perform (bind_acp request) = quiet (bind_acp_session request)
perform (bind_observed request turn) = bind_acp_session_with_observations request turn
perform (mark_dispatched session turn acp) =
    mark_acp_context_dispatched_with_observation session turn acp
perform (observe_acp session turn acp key observation) =
    append_acp_observation session turn acp key observation
perform (signal s key) = append_runtime_signal_in s key
perform (finish_turn turn status error stop_reason) =
    finish_turn_with_stop_reason turn status error stop_reason
perform recover = recover_interrupted_work

abbrev pub kept : Db → Result (Unit {0} × Db) → Db
kept db (ok (u, db')) = db'
kept db (err e) = db

-- A transaction that fails leaves the tables as they were.
unfoldable pub commit : Call → Db → Db
unfolding perform
commit call db = kept db (perform call db)

unfoldable pub run : List Call → Db → Db
unfolding commit
run [] db = db
run (c ∷ cs) db = run cs (commit c db)
