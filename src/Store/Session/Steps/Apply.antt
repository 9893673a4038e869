-- ===== src/Store/Session/Steps/Apply.antt =====
-- crates/mews-store/src/sessions.rs, apply_session_journal_entry: it moves along every relation that
-- the changes of single tables move along.
use mews.Prelude.{ℕ, String, false, not, Option, some, ◌==◌, ◌≡◌, refl, inl, inr, none}
use mews.Protocol.Events.Client.{ClientEventKind}
use mews.Protocol.Events.Journal.{JournalEntry, JournalEvent, EffectRequest}
use mews.Protocol.Messages.{HarnessProvenance, MessageContent, MessageSource, SessionEntryPayload}
use mews.Protocol.Messages.{HarnessProvenance, SessionEntryPayload}
use mews.Protocol.Turns.{AcpInstructionChannel, AcpSessionBinding, Session}
use mews.Protocol.Values.{Uid, Value}
use mews.Store.Result.{invalid_data, revision_not_of_agent}
use mews.Store.Session.Apply.{
  apply_event, apply_session_journal_entry, change_session, create_session_row, with_model,
}
use mews.Store.Session.Bindings.{change_binding, dispatch_context}
use mews.Store.Session.Effects.{Closing, outcome_of, schedule_effect_row, set_effect_started}
use mews.Store.Session.Entries.{
  append_session_entry, next_sequence, update_session, validate_session_item, with_leaf,
}
use mews.Store.Session.Signals.{append_durable_client_event}
use mews.Store.Journal.Record.{journal_session_id}
use mews.Store.Session.Steps.{
  Justified, Projects, Moves-read, require-Leaves, unchanged-Leaves, Same-order,
}
use mews.Store.Session.Turns.{
  accept_turn, accepted_turn, insert_turn, start_turn, update_turns, has_ended, revision_exists,
  validate_active_turn, with_harness,
}
use mews.Store.Tables.{Db, is_active}
use mews.Store.Tx.{
  Tx, Leaves, ◌>>=◌, ◌>>◌, gets, modify, require, Moves, moves, Moves-modify, Moves-bind,
  Moves-pure, Leaves-then,
}
use mews.Store.Session.Steps.Entries.{
  journal_session_id-Moves, validate_session_item-Moves, current_session_leaf-Moves,
  no_active_turn-Moves, append_durable_client_event-Moves, insert_session_entry-Leaves,
  append_session_entry-Moves, insert_turn-Moves, not-false,
}
use mews.Store.Session.Steps.Told.{
  append_quietly-Moves, record_response-Moves, record_tool_call-Moves, record_tool_result-Moves,
  project_turn_terminal-Moves, set_effect_terminal-Leaves,
}

module _ {R : Db → Db → Type 0} (p : Projects R) where
  abbrev start_rest_of : JournalEntry → Uid → HarnessProvenance → Tx Unit
  start_rest_of e t h =
      append_session_entry e e.id (SessionEntryPayload.turn_started t h) "turn_started" false
      >>= λ entry. append_durable_client_event e (some e.id) (ClientEventKind.turn_started t)

  start_rest : (e : JournalEntry) (t : Uid) (h : HarnessProvenance) → Moves R (start_rest_of e t h)
  start_rest e t h =
      search
        (moves, p.order, append_session_entry-Moves, append_durable_client_event-Moves, p.feeds)

  start_turn-Moves :
      (e : JournalEntry) (s t : Uid) (h : HarnessProvenance) → Moves R (start_turn e s t h)
  unfolding start_turn validate_active_turn gets modify ◌>>=◌
  start_turn-Moves e s t h = record {
    at = λ db.
        require-Leaves R _ _
          (modify (update_turns (λ r. r.id == t) (with_harness h)) >> start_rest_of e t h) db
          (λ active.
            Leaves-then p.order (modify (update_turns (λ r. r.id == t) (with_harness h))) _ db
              (p.harness s t h db active) (λ u. start_rest e t h));
  }

  accepted_turn-dated :
      (e : JournalEntry) (s t : Uid) (revision : ℕ) (source : MessageSource)
      → has_ended (accepted_turn e s t revision source).status
        ≡ not (is_active (accepted_turn e s t revision source))
  unfolding accepted_turn
  accepted_turn-dated e s t revision source = refl

  accept_rest :
      (e : JournalEntry) (s t : Uid) (revision : ℕ) (id : Uid) (source : MessageSource)
      → Moves R (
          modify (update_session s (with_leaf (some id)))
          >> (gets (revision_exists s revision) >>= λ exists.
              (require exists (invalid_data revision_not_of_agent)
                >> insert_turn (accepted_turn e s t revision source))))
  accept_rest e s t revision id source =
      search (moves, p.order, Moves-modify, p.leaf, insert_turn-Moves, accepted_turn-dated) depth 12

  accept_turn-Moves :
      (e : JournalEntry) (s t : Uid) (revision : ℕ) (id : Uid) (c : MessageContent) (m : Value)
      (source : MessageSource)
      → Moves R (accept_turn e s t revision id c m source)
  unfolding accept_turn
  accept_turn-Moves e s t revision id c m source =
      Moves-bind p.order _ _ (no_active_turn-Moves p.order s) (λ u.
        Moves-bind p.order _ _ (current_session_leaf-Moves p.order s) (λ parent.
          Moves-read (next_sequence s) _ (λ db.
            unchanged-Leaves R (validate_session_item (SessionEntryPayload.user_message c m source))
              _ db (validate_session_item-Moves Same-order _)
              (λ u.
                Leaves-then p.order _ _ db (insert_session_entry-Leaves p.tells _ db refl)
                  (λ u. accept_rest e s t revision id source)))))

  schedule_effect_row-Moves :
      (e : JournalEntry) (s operation t : Uid) (effect : EffectRequest)
      → Moves R (schedule_effect_row e s operation t effect)
  unfolding schedule_effect_row gets modify ◌>>=◌
  schedule_effect_row-Moves e s operation t effect = record {
    at = λ db.
        require-Leaves R _ _ _ db
          (λ free. require-Leaves R _ _ _ db (λ known. p.effect _ db (not-false _ free) known));
  }

  set_effect_started-Moves : (e : JournalEntry) (o : Uid) → Moves R (set_effect_started e o)
  unfolding set_effect_started
  set_effect_started-Moves e o = search (moves, p.order, Moves-modify, p.start) depth 12

  create_session_row-Moves : (s : Session) → Moves R (create_session_row s)
  unfolding create_session_row gets modify ◌>>=◌
  create_session_row-Moves s = record {
    at = λ db.
        require-Leaves R _ _ _ db
          (λ free. require-Leaves R _ _ _ db (λ known. p.session s db (not-false _ free)));
  }

  change_model-Moves : (s : Uid) (m : Option String) → Moves R (change_session s (with_model m))
  unfolding change_session
  change_model-Moves s m = search (moves, p.order, Moves-modify, p.model) depth 12

  change_leaf-Moves : (s : Uid) (l : Option Uid) → Moves R (change_session s (with_leaf l))
  unfolding change_session
  change_leaf-Moves s l = search (moves, p.order, Moves-modify, p.leaf) depth 12

  change_binding-Moves : (b : AcpSessionBinding) → Moves R (change_binding b)
  unfolding change_binding
  change_binding-Moves b = search (moves, p.order, Moves-modify, p.binding) depth 12

  dispatch_context-Moves :
      (s host : Uid) (harness : String) (version : ℕ) (hash : String) (c : AcpInstructionChannel)
      → Moves R (dispatch_context s host harness version hash c)
  unfolding dispatch_context
  dispatch_context-Moves s host harness version hash c =
      search (moves, p.order, Moves-modify, p.bindings) depth 12

  pub apply_event-Leaves :
      (e : JournalEntry) (s : Uid) (payload : JournalEvent) (db : Db)
      → Justified p payload db
      → Leaves R db (apply_event e s payload db)
  unfolding apply_event
  apply_event-Leaves e s (JournalEvent.session_created n) db j = (create_session_row-Moves n).at db
  apply_event-Leaves e s (JournalEvent.session_model_changed m) db j =
      (change_model-Moves s m).at db
  apply_event-Leaves e s (JournalEvent.user_message_appended a b c d) db j =
      (append_quietly-Moves p.tells e a _ _ _).at db
  apply_event-Leaves e s (JournalEvent.session_leaf_changed l) db j = (change_leaf-Moves s l).at db
  apply_event-Leaves e s (JournalEvent.turn_accepted a b c d f g) db j =
      (accept_turn-Moves e s a b c d f g).at db
  apply_event-Leaves e s (JournalEvent.turn_started a b) db j = (start_turn-Moves e s a b).at db
  apply_event-Leaves e s (JournalEvent.assistant_response_recorded a b c) db j =
      (record_response-Moves p.tells e a b c).at db
  apply_event-Leaves e s (JournalEvent.tool_call_requested a b c) db j =
      (record_tool_call-Moves p.tells e a b c).at db
  apply_event-Leaves e s (JournalEvent.tool_result_recorded a b c) db j =
      (record_tool_result-Moves p.tells e a b c).at db
  apply_event-Leaves e s (JournalEvent.tool_execution_completed a b c) db j =
      set_effect_terminal-Leaves p.tells e a b (outcome_of c) (some c) db
        (λ s. p.close s b a (outcome_of c) e (some c) db (inl j))
  apply_event-Leaves e s (JournalEvent.reasoning_recorded a b c d f) db j =
      (append_quietly-Moves p.tells e b _ _ _).at db
  apply_event-Leaves e s (JournalEvent.harness_observation_recorded a b c d f) db j =
      (append_quietly-Moves p.tells e b _ _ _).at db
  apply_event-Leaves e s (JournalEvent.context_compacted a b c d) db j =
      (append_quietly-Moves p.tells e a _ _ _).at db
  apply_event-Leaves e s (JournalEvent.effect_scheduled a b c) db j =
      (schedule_effect_row-Moves e s a b c).at db
  apply_event-Leaves e s (JournalEvent.effect_started a b) db j =
      (set_effect_started-Moves e a).at db
  apply_event-Leaves e s (JournalEvent.effect_succeeded a b c) db j =
      set_effect_terminal-Leaves p.tells e a b Closing.succeeded none db
        (λ s. p.close s b a Closing.succeeded e none db (inl j))
  apply_event-Leaves e s (JournalEvent.effect_failed a b c) db j =
      set_effect_terminal-Leaves p.tells e a b Closing.failed none db
        (λ s. p.close s b a Closing.failed e none db (inr refl))
  apply_event-Leaves e s (JournalEvent.effect_uncertain a b c) db j =
      set_effect_terminal-Leaves p.tells e a b Closing.uncertain none db
        (λ s. p.close s b a Closing.uncertain e none db (inl j))
  apply_event-Leaves e s (JournalEvent.acp_binding_changed b) db j = (change_binding-Moves b).at db
  apply_event-Leaves e s (JournalEvent.acp_context_dispatched a b c d f) db j =
      (dispatch_context-Moves s a b c d f).at db
  apply_event-Leaves e s (JournalEvent.turn_completed a b) db j =
      (project_turn_terminal-Moves p.tells e a _ _ _ _ (λ db. p.finish a _ _ _ db refl)).at db
  apply_event-Leaves e s (JournalEvent.turn_failed a b) db j =
      (project_turn_terminal-Moves p.tells e a _ _ _ _ (λ db. p.finish a _ _ _ db refl)).at db
  apply_event-Leaves e s (JournalEvent.turn_cancelled a) db j =
      (project_turn_terminal-Moves p.tells e a _ _ _ _ (λ db. p.finish a _ _ _ db refl)).at db
  apply_event-Leaves e s (JournalEvent.turn_interrupted a b) db j =
      (project_turn_terminal-Moves p.tells e a _ _ _ _ (λ db. p.finish a _ _ _ db refl)).at db
  apply_event-Leaves e s (JournalEvent.installation_created a) db j = (Moves-pure p.order tt).at db
  apply_event-Leaves e s (JournalEvent.relay_changed a b) db j = (Moves-pure p.order tt).at db
  apply_event-Leaves e s (JournalEvent.hub_changed a b) db j = (Moves-pure p.order tt).at db
  apply_event-Leaves e s (JournalEvent.host_enrolled a) db j = (Moves-pure p.order tt).at db
  apply_event-Leaves e s (JournalEvent.host_revoked a) db j = (Moves-pure p.order tt).at db
  apply_event-Leaves e s (JournalEvent.host_invitation_created a b c) db j =
      (Moves-pure p.order tt).at db
  apply_event-Leaves e s (JournalEvent.host_invitation_consumed a b) db j =
      (Moves-pure p.order tt).at db
  apply_event-Leaves e s (JournalEvent.agent_created a b) db j = (Moves-pure p.order tt).at db
  apply_event-Leaves e s (JournalEvent.agent_revision_created a) db j =
      (Moves-pure p.order tt).at db
  apply_event-Leaves e s (JournalEvent.agent_renamed a) db j = (Moves-pure p.order tt).at db
  apply_event-Leaves e s JournalEvent.agent_archived db j = (Moves-pure p.order tt).at db
  apply_event-Leaves e s (JournalEvent.provider_defaults_changed a) db j =
      (Moves-pure p.order tt).at db

  pub apply_session_journal_entry-Leaves :
      (e : JournalEntry) (db : Db)
      → Justified p e.payload db
      → Leaves R db (apply_session_journal_entry e db)
  unfolding apply_session_journal_entry
  apply_session_journal_entry-Leaves e db j =
      unchanged-Leaves R (journal_session_id e) _ db (journal_session_id-Moves Same-order e)
        (λ s. apply_event-Leaves e s e.payload db j)
