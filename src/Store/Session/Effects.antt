-- ===== src/Store/Session/Effects.antt =====
-- crates/mews-store/src/sessions.rs: how the events of an effect change its row.
use mews.Prelude.{
  Bool, not, Option, none, some, [], ◌∷◌, ◌++◌, any, ◌==◌, ◌&&◌, ◌||◌, if◌then◌else◌, update_where,
  count,
}
use mews.Protocol.Events.Journal.{EffectRequest, JournalEntry}
use mews.Protocol.Messages.{ToolCall, ToolResult}
use mews.Protocol.Values.{Uid, Time}
use mews.Store.Journal.Record.{journal_session_id}
use mews.Store.Result.{
  database, unique_violation, foreign_key_violation, invalid_data, effect_not_scheduled,
  effect_missing_or_terminal,
}
use mews.Store.Session.Entries.{is_session}
use mews.Store.Tables.{Db, EffectRow, EffectStatus, is_open, is_scheduled, same_text}
use mews.Store.Tx.{Tx, ◌>>=◌, ◌>>◌, gets, modify, require}

abbrev pub call_of : EffectRequest → Option ToolCall
call_of (EffectRequest.tool_call call) = some call
call_of _ = none

abbrev pub scheduled_effect : JournalEntry → Uid → Uid → Uid → EffectRequest → EffectRow
scheduled_effect event session operation turn_id effect = record {
  operation_id = operation;
  session_id = session;
  turn_id = turn_id;
  call_id = elim (call_of effect) [ none ↦ none | some c ↦ some c.call_id ];
  tool = elim (call_of effect) [ none ↦ none | some c ↦ some c.tool ];
  request = effect;
  status = EffectStatus.scheduled;
  raw_result = none;
  scheduled_journal_entry_id = event.id;
  terminal_journal_entry_id = none;
  scheduled_at = event.recorded_at;
  started_at = none;
  completed_at = none;
}

-- PRIMARY KEY and UNIQUE (turn_id, call_id)
abbrev pub effect_clashes : EffectRow → EffectRow → Bool
effect_clashes new old =
    new.operation_id == old.operation_id
    || new.turn_id == old.turn_id && same_text new.call_id old.call_id

-- The rows that a new effect refers to.
unfoldable pub effect_parents_exist : EffectRow → Db → Bool
unfolding is_session
effect_parents_exist row db =
    is_session row.session_id db
    && any (λ t. t.id == row.turn_id) db.turns
    && any (λ e. e.id == row.scheduled_journal_entry_id) db.journal

unfoldable pub add_effect : EffectRow → Db → Db
add_effect row db = record db { effects = db.effects ++ row ∷ [] }

-- INSERT INTO effects
unfoldable pub schedule_effect_row : JournalEntry → Uid → Uid → Uid → EffectRequest → Tx Unit
schedule_effect_row event session operation turn_id effect = do
  let row = scheduled_effect event session operation turn_id effect
  taken ← gets (λ db. any (effect_clashes row) db.effects)
  require (not taken) (database unique_violation)
  known ← gets (effect_parents_exist row)
  require known (database foreign_key_violation)
  modify (add_effect row)

-- UPDATE effects SET … WHERE …
unfoldable pub update_effects : (EffectRow → Bool) → (EffectRow → EffectRow) → Db → Db
update_effects p f db = record db { effects = update_where p f db.effects }

abbrev pub startable : Uid → EffectRow → Bool
startable operation e = e.operation_id == operation && is_scheduled e.status

abbrev pub with_start : Time → EffectRow → EffectRow
with_start at e = record e { status = EffectStatus.started; started_at = some at }

unfoldable pub set_effect_started : JournalEntry → Uid → Tx Unit
set_effect_started event operation = do
  changed ← gets (λ db. count (startable operation) db.effects)
  modify (update_effects (startable operation) (with_start event.recorded_at))
  require (changed == 1) (invalid_data effect_not_scheduled)

abbrev pub closable : Uid → Uid → Uid → EffectRow → Bool
closable session turn_id operation e =
    e.operation_id == operation
    && e.session_id == session
    && e.turn_id == turn_id
    && is_open e.status

abbrev pub with_end : EffectStatus → JournalEntry → Option ToolResult → EffectRow → EffectRow
with_end status event raw e = record e {
  status = status;
  terminal_journal_entry_id = some event.id;
  completed_at = some event.recorded_at;
  raw_result = raw;
}

-- The statuses that close an effect.
pub data Closing : Type 0 where
  succeeded failed uncertain : Closing

abbrev pub closed_as : Closing → EffectStatus
closed_as Closing.succeeded = EffectStatus.succeeded
closed_as Closing.failed = EffectStatus.failed
closed_as Closing.uncertain = EffectStatus.uncertain

unfoldable pub set_effect_terminal :
    JournalEntry → Uid → Uid → Closing → Option ToolResult → Tx Unit
set_effect_terminal event operation turn_id status raw = do
  session ← journal_session_id event
  changed ← gets (λ db. count (closable session turn_id operation) db.effects)
  modify
      (update_effects (closable session turn_id operation) (with_end (closed_as status) event raw))
  require (changed == 1) (invalid_data effect_missing_or_terminal)

abbrev pub outcome_of : ToolResult → Closing
outcome_of result =
    if result.uncertain
    then Closing.uncertain
    else if result.is_error
    then Closing.failed
    else Closing.succeeded
