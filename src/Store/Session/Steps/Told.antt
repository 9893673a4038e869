-- ===== src/Store/Session/Steps/Told.antt =====
-- crates/mews-store/src/sessions.rs, the events that add an entry and tell the clients of
-- it move along every relation that such an addition moves along.
use mews.Prelude.{String, Bool, Option, ◌==◌, ◌&&◌, count}
use mews.Protocol.Events.Client.{ClientEventKind}
use mews.Protocol.Events.Journal.{JournalEntry}
use mews.Protocol.Messages.{AssistantResponse, SessionEntryPayload, ToolCall, ToolResult}
use mews.Protocol.Messages.{SessionEntryPayload, ToolResult}
use mews.Protocol.Turns.{TurnStatus}
use mews.Protocol.Values.{Uid}
use mews.Store.Session.Apply.{append_quietly}
use mews.Store.Session.Effects.{
  Closing, closable, closed_as, update_effects, with_end, set_effect_terminal,
}
use mews.Store.Result.{invalid_data, effect_missing_or_terminal}
use mews.Store.Journal.Record.{journal_session_id}
use mews.Store.Session.Steps.{Tells, Same-order, unchanged-Leaves}
use mews.Store.Session.Transcript.{record_response, record_tool_call, record_tool_result}
use mews.Store.Session.Turns.{project_turn_terminal, update_turns, finished}
use mews.Store.Tables.{Db, is_active}
use mews.Store.Tx.{
  ◌>>=◌, gets, modify, require, Leaves, Leaves-then, Moves-require, Moves, moves, Moves-modify,
}
use mews.Store.Session.Steps.Entries.{
  journal_session_id-Moves, append_durable_client_event-Moves, append_session_entry-Moves,
}

module _ {R : Db → Db → Type 0} (p : Tells R) where
  pub append_quietly-Moves :
      (e : JournalEntry) (id : Uid) (payload : SessionEntryPayload) (kind : String) (c : Bool)
      → Moves R (append_quietly e id payload kind c)
  unfolding append_quietly
  append_quietly-Moves e id payload kind c =
      search (moves, p.order, append_session_entry-Moves) depth 12

  pub record_response-Moves :
      (e : JournalEntry) (t id : Uid) (r : AssistantResponse) → Moves R (record_response e t id r)
  unfolding record_response
  record_response-Moves e t id r =
      search
        (moves, p.order, append_session_entry-Moves, append_durable_client_event-Moves, p.feeds)
        depth 12

  pub record_tool_call-Moves :
      (e : JournalEntry) (t id : Uid) (c : ToolCall) → Moves R (record_tool_call e t id c)
  unfolding record_tool_call
  record_tool_call-Moves e t id c =
      search
        (moves, p.order, append_session_entry-Moves, append_durable_client_event-Moves, p.feeds)
        depth 12

  pub record_tool_result-Moves :
      (e : JournalEntry) (t id : Uid) (r : ToolResult) → Moves R (record_tool_result e t id r)
  unfolding record_tool_result
  record_tool_result-Moves e t id r =
      search
        (moves, p.order, append_session_entry-Moves, append_durable_client_event-Moves, p.feeds)
        depth 12

  pub project_turn_terminal-Moves :
      (e : JournalEntry) (t : Uid) (status : TurnStatus) (error : Option String)
      (payload : SessionEntryPayload) (kind : ClientEventKind)
      → ((db : Db)
          → R db (
              update_turns
                (λ r. r.id == t && is_active r)
                (finished status error e.recorded_at)
                db))
      → Moves R (project_turn_terminal e t status error payload kind)
  unfolding project_turn_terminal
  project_turn_terminal-Moves e t status error payload kind h =
      search
        (
          moves, p.order, Moves-modify, h, p, append_session_entry-Moves,
          append_durable_client_event-Moves,
        )
        depth 12

  pub set_effect_terminal-Leaves :
      (e : JournalEntry) (o t : Uid) (status : Closing) (raw : Option ToolResult) (db : Db)
      → ((s : Uid) → R db (update_effects (closable s t o) (with_end (closed_as status) e raw) db))
      → Leaves R db (set_effect_terminal e o t status raw db)
  unfolding set_effect_terminal gets modify ◌>>=◌
  set_effect_terminal-Leaves e o t status raw db h =
      unchanged-Leaves R (journal_session_id e) _ db (journal_session_id-Moves Same-order e) (λ s.
        Leaves-then p.order
          (modify (update_effects (closable s t o) (with_end (closed_as status) e raw)))
          (λ _.
            require (count (closable s t o) db.effects == 1)
              (invalid_data effect_missing_or_terminal))
          db (h s) (λ u. Moves-require p.order _ (invalid_data effect_missing_or_terminal)))
