-- ===== src/Store/Session/Finish.antt =====
-- crates/mews-store/src/turns.rs: the end of a Turn's work.
pub mod Closed
pub mod Answered
pub mod Ended
pub mod Laws
use text.Mathlib.Text.{◌==◌ as str_eq}
use mews.Prelude.{
  String, Bool, true, false, not, Option, none, some, List, [], ◌∷◌, map, keep, any, find, leb,
  ◌==◌, ◌&&◌, if◌then◌else◌,
}
use mews.Protocol.Events.Journal.{JournalEvent, system_actor}
use mews.Protocol.Messages.{SessionEntryPayload, ToolCall, ToolResult}
use mews.Protocol.Turns.{Turn, TurnStatus}
use mews.Protocol.Values.{Uid, Value}
use mews.Store.Result.{invalid_data, not_found, Kind, running_status, turn_finished, open_effects}
use mews.Store.Session.Record.{record_applied}
use mews.Store.Tables.{Db, EffectRow, is_active, is_open, is_started}
use mews.Store.Tx.{Tx, ◌>>=◌, ◌>>◌, pure, gets, require, require_some, new_id, for_each, when}

unfoldable pub select_turn : Uid → Tx Turn
select_turn turn_id = do
  found ← gets (λ db. find (λ t. t.id == turn_id) db.turns)
  row ← require_some found (not_found Kind.turn turn_id)
  pure row.turn

abbrev pub same_status : TurnStatus → TurnStatus → Bool
same_status TurnStatus.running TurnStatus.running = true
same_status TurnStatus.completed TurnStatus.completed = true
same_status TurnStatus.failed TurnStatus.failed = true
same_status TurnStatus.cancelled TurnStatus.cancelled = true
same_status _ _ = false

abbrev pub record_result : Uid → Uid → String → String → String → Bool → Tx Unit
record_result session turn_id call tool detail uncertain = do
  entry_id ← new_id
  record_applied session system_actor
      (JournalEvent.tool_result_recorded turn_id entry_id (record {
        call_id = call;
        tool = tool;
        result = Value.string detail;
        is_error = true;
        uncertain = uncertain;
      }))
      none

unfoldable pub record_terminated_tool_result : Uid → Uid → String → String → Bool → Tx Unit
record_terminated_tool_result session turn_id call tool uncertain =
    record_result session turn_id call tool
      (if uncertain
        then "outcome unknown because the Turn ended during tool execution"
        else "tool execution did not start before the Turn ended")
      uncertain

unfoldable pub record_interrupted_tool_processing : Uid → Uid → ToolResult → Tx Unit
record_interrupted_tool_processing session turn_id raw =
    record_result session turn_id raw.call_id raw.tool
      "tool execution completed, but result processing was interrupted before hooks finished" true

abbrev pub open_of : Uid → EffectRow → Bool
open_of turn_id e = e.turn_id == turn_id && is_open e.status

-- ORDER BY scheduled_at
unfoldable pub insert_by_time : EffectRow → List EffectRow → List EffectRow
insert_by_time e [] = e ∷ []
insert_by_time e (f ∷ fs) =
    let rest = insert_by_time e fs in
    if leb e.scheduled_at f.scheduled_at then e ∷ f ∷ fs else f ∷ rest

unfoldable pub by_time : List EffectRow → List EffectRow
unfolding insert_by_time
by_time [] = []
by_time (e ∷ es) = insert_by_time e (by_time es)

abbrev pub termination : Uid → EffectRow → JournalEvent
termination turn_id e =
    if is_started e.status
    then JournalEvent.effect_uncertain e.operation_id turn_id
        "Turn terminated before the effect reported an outcome"
    else JournalEvent.effect_failed e.operation_id turn_id
        "Turn terminated before the effect started"

-- The result of the tool call that an effect ran.
abbrev pub terminated_result : Uid → Uid → EffectRow → Tx Unit
terminated_result session turn_id e = elim e.call_id [
  | none ↦ pure tt
  | some call ↦ elim e.tool [
    | none ↦ pure tt
    | some tool ↦ record_terminated_tool_result session turn_id call tool (is_started e.status)
  ]
]

unfoldable pub close_effect : Uid → Uid → EffectRow → Tx Unit
close_effect session turn_id e = do
  record_applied session system_actor (termination turn_id e) none
  terminated_result session turn_id e

unfoldable pub close_open_effects : Uid → Uid → Tx Unit
unfolding by_time
close_open_effects session turn_id = do
  effects ← gets (λ db. by_time (keep (open_of turn_id) db.effects))
  for_each (close_effect session turn_id) effects

-- The rows of a Session come in the order of their numbers, in which they were inserted.
unfoldable pub session_payloads : Uid → Db → List SessionEntryPayload
session_payloads session db = map (λ e. e.payload) (keep (λ e. e.session_id == session) db.entries)

unfoldable pub requested : Uid → SessionEntryPayload → Option ToolCall
requested turn_id (SessionEntryPayload.tool_started t call) =
    if t == turn_id then some call else none
requested turn_id _ = none

unfoldable pub requested_calls : Uid → List SessionEntryPayload → List ToolCall
unfolding requested
requested_calls turn_id [] = []
requested_calls turn_id (p ∷ ps) =
    let rest = requested_calls turn_id ps in
    elim (requested turn_id p) [ none ↦ rest | some call ↦ call ∷ rest ]

unfoldable pub completes : Uid → String → SessionEntryPayload → Bool
completes turn_id call (SessionEntryPayload.tool_result t result) =
    t == turn_id && str_eq result.call_id call
completes turn_id call _ = false

-- `completed.contains(…)` for the results of the Turn.
unfoldable pub is_completed : Uid → String → List SessionEntryPayload → Bool
unfolding completes
is_completed turn_id call = any (completes turn_id call)

-- What a map from call IDs to results holds after the insertion of each: the last one.
unfoldable pub raw_completion : String → List (Option ToolResult) → Option ToolResult
raw_completion call [] = none
raw_completion call (none ∷ rs) = raw_completion call rs
raw_completion call (some r ∷ rs) =
    let rest = raw_completion call rs in
    elim rest [ some later ↦ some later | none ↦ if str_eq r.call_id call then some r else none ]

unfoldable pub raw_results : Uid → Uid → Db → List (Option ToolResult)
raw_results session turn_id db =
    map (λ e. e.raw_result) (keep (λ e. e.session_id == session && e.turn_id == turn_id) db.effects)

unfoldable pub close_call :
    Uid → Uid → List SessionEntryPayload → List (Option ToolResult) → ToolCall → Tx Unit
close_call session turn_id entries raw call =
    when (not (is_completed turn_id call.call_id entries)) (elim (raw_completion call.call_id raw) [
      | none ↦ record_terminated_tool_result session turn_id call.call_id call.tool false
      | some r ↦ record_interrupted_tool_processing session turn_id r
    ])

unfoldable pub close_orphan_tool_calls : Uid → Uid → Tx Unit
close_orphan_tool_calls session turn_id = do
  entries ← gets (session_payloads session)
  raw ← gets (raw_results session turn_id)
  for_each (close_call session turn_id entries raw) (requested_calls turn_id entries)

abbrev pub terminal_event : Uid → TurnStatus → Option String → Option String → JournalEvent
terminal_event turn_id TurnStatus.completed error stop_reason =
    JournalEvent.turn_completed turn_id stop_reason
terminal_event turn_id TurnStatus.cancelled error stop_reason = JournalEvent.turn_cancelled turn_id
terminal_event turn_id _ error stop_reason =
    JournalEvent.turn_failed turn_id (elim error [ none ↦ "Turn failed" | some e ↦ e ])

-- The Turn is not active: the call is a repetition, or an error.
unfoldable pub finish_again : Uid → TurnStatus → Tx Unit
finish_again turn_id status = do
  existing ← select_turn turn_id
  require (same_status existing.status status) (invalid_data turn_finished)

unfoldable pub finish_active : Uid → Uid → TurnStatus → Option String → Option String → Tx Unit
finish_active session turn_id status error stop_reason = do
  unfinished ← gets (λ db. any (open_of turn_id) db.effects)
  require (not (same_status status TurnStatus.completed && unfinished)) (invalid_data open_effects)
  when unfinished (close_open_effects session turn_id)
  close_orphan_tool_calls session turn_id
  record_applied session system_actor (terminal_event turn_id status error stop_reason) none

unfoldable pub finish_turn_with_stop_reason :
    Uid → TurnStatus → Option String → Option String → Tx Unit
finish_turn_with_stop_reason turn_id status error stop_reason = do
  require (not (same_status status TurnStatus.running)) (invalid_data running_status)
  found ← gets (λ db. find (λ t. t.id == turn_id && is_active t) db.turns)
  elim found [
    | none ↦ finish_again turn_id status
    | some t ↦ finish_active t.session_id turn_id status error stop_reason
  ]

abbrev pub finish_turn : Uid → TurnStatus → Option String → Tx Unit
finish_turn turn_id status error = finish_turn_with_stop_reason turn_id status error none
