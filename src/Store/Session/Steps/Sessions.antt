-- ===== src/Store/Session/Steps/Sessions.antt =====
-- crates/mews-store/src/sessions.rs: the operations on Sessions and bindings move along every relation
-- that their single changes move along.
use mews.Prelude.{String, Option, ◌≡◌, refl, true}
use mews.Protocol.Messages.{
  MessageContent, MessageRole, MessageSource, SessionEntry, SessionEntryPayload,
}
use mews.Protocol.Turns.{AcpObservation, AcpSessionBinding}
use mews.Protocol.Values.{Uid, Value}
use mews.Store.Session.Acp.{
  BindingRequest, bind_acp_session, bind_acp_session_with_observations, change_acp_binding,
  decide_acp_binding, mark_acp_context_dispatched_with_observation, mark_dispatched,
  observation_event, record_acp_observation_transaction,
}
use mews.Store.Session.Sessions.{
  append_message, append_message_checked, create_session, expect_leaf, message_from_entry,
  payload_message, select_session, set_session_leaf_checked, set_session_model,
  validate_appended_message,
}
use mews.Store.Session.Steps.Actions.{unless_observed-Moves}
use mews.Store.Session.Steps.Entries.{validate_session_item-Moves}
use mews.Store.Session.Steps.{is_ordinary}
use mews.Store.Session.Steps.Record.{Records, new_id-Moves, order, parts, record_applied-Moves}
use mews.Store.Tx.Yields.{Yields, Yields-bind, Yields-pure, Moves-yield}
use mews.Store.Tables.{Db}
use mews.Store.Tx.{IsPreorder, Moves, Moves-bind, Moves-fail, Moves-pure}

module _ {R : Db → Db → Type 0} (o : IsPreorder R) where
  payload_message-Moves :
      (e : SessionEntry) (payload : SessionEntryPayload) → Moves R (payload_message e payload)
  unfolding payload_message
  payload_message-Moves e (SessionEntryPayload.user_message _ _ _) = Moves-pure o _
  payload_message-Moves e (SessionEntryPayload.turn_started _ _) = Moves-fail o _
  payload_message-Moves e (SessionEntryPayload.assistant_response _ _) = Moves-pure o _
  payload_message-Moves e (SessionEntryPayload.tool_started _ _) = Moves-fail o _
  payload_message-Moves e (SessionEntryPayload.tool_result _ _) = Moves-pure o _
  payload_message-Moves e (SessionEntryPayload.reasoning _ _ _ _) = Moves-fail o _
  payload_message-Moves e (SessionEntryPayload.turn_completed _ _) = Moves-fail o _
  payload_message-Moves e (SessionEntryPayload.turn_failed _ _) = Moves-fail o _
  payload_message-Moves e (SessionEntryPayload.turn_cancelled _) = Moves-fail o _
  payload_message-Moves e (SessionEntryPayload.context_compaction _ _ _) = Moves-fail o _
  payload_message-Moves e (SessionEntryPayload.harness_observation _ _ _ _) = Moves-fail o _

  pub message_from_entry-Moves : (e : SessionEntry) → Moves R (message_from_entry e)
  unfolding message_from_entry
  message_from_entry-Moves e = payload_message-Moves e e.payload

module _ {R : Db → Db → Type 0} (r : Records R) where
  pub select_session-Moves : (s : Uid) → Moves R (select_session s)
  unfolding select_session
  select_session-Moves s = search (parts) depth 12

  pub create_session-Moves : (a h : Uid) (d : String) → Moves R (create_session a h d)
  unfolding create_session
  create_session-Moves a h d = search (parts) depth 12

  pub set_session_model-Moves : (s : Uid) (m : Option String) → Moves R (set_session_model s m)
  unfolding set_session_model
  set_session_model-Moves s m = search (parts, select_session-Moves) depth 12

  pub expect_leaf-Moves : (s : Uid) (l : Option Uid) → Moves R (expect_leaf s l)
  unfolding expect_leaf
  expect_leaf-Moves s l = search (parts, select_session-Moves) depth 12

  pub validate_appended_message-Moves :
      (c : MessageContent) (m : Value) (o : MessageSource)
      → Moves R (validate_appended_message c m o)
  unfolding validate_appended_message
  validate_appended_message-Moves c m o = search (parts, validate_session_item-Moves) depth 12

  pub append_message_checked-Moves :
      (s : Uid) (l : Option Uid) (role : MessageRole) (c : MessageContent) (m : Value)
      (o : MessageSource)
      → Moves R (append_message_checked s l role c m o)
  unfolding append_message_checked
  append_message_checked-Moves s l role c m o =
      search (parts, validate_appended_message-Moves, expect_leaf-Moves, message_from_entry-Moves)
        depth 12

  pub append_message-Moves :
      (s : Uid) (role : MessageRole) (c : MessageContent) (m : Value) (o : MessageSource)
      → Moves R (append_message s role c m o)
  unfolding append_message
  append_message-Moves s role c m o =
      search (parts, append_message_checked-Moves, select_session-Moves) depth 12

  pub set_session_leaf_checked-Moves :
      (s : Uid) (l k : Option Uid) → Moves R (set_session_leaf_checked s l k)
  unfolding set_session_leaf_checked
  set_session_leaf_checked-Moves s l k =
      search (parts, expect_leaf-Moves, select_session-Moves) depth 12

  pub decide_acp_binding-Moves : (q : BindingRequest) → Moves R (decide_acp_binding q)
  unfolding decide_acp_binding
  decide_acp_binding-Moves q = search (parts) depth 12

  pub change_acp_binding-Moves : (q : BindingRequest) → Moves R (change_acp_binding q)
  unfolding change_acp_binding
  change_acp_binding-Moves q = search (parts, decide_acp_binding-Moves) depth 12

  pub bind_acp_session-Moves : (q : BindingRequest) → Moves R (bind_acp_session q)
  unfolding bind_acp_session
  bind_acp_session-Moves q = search (parts, change_acp_binding-Moves) depth 12

  observation_event-Moves :
      (t : Uid) (a : Option String) (o : AcpObservation) (e : Uid)
      → Moves R (observation_event t a o e)
  unfolding observation_event
  observation_event-Moves t a (AcpObservation.assistant_delta _ _ _) e = search parts depth 12
  observation_event-Moves t a (AcpObservation.completed_reasoning _ _ _) e = search parts depth 12
  observation_event-Moves t a (AcpObservation.context_dispatched _ _ _ _) e = search parts depth 12
  observation_event-Moves t a (AcpObservation.binding_changed _) e = search parts depth 12
  observation_event-Moves t a (AcpObservation.provider_update _) e = search parts depth 12
  observation_event-Moves t a (AcpObservation.tool_activity _) e = search parts depth 12
  observation_event-Moves t a (AcpObservation.hook_outcome _ _ _ _ _) e = search parts depth 12

  -- An observation is of no effect.
  observation_event-Ordinary :
      (t : Uid) (a : Option String) (o : AcpObservation) (e : Uid)
      → Yields (λ p. is_ordinary p ≡ true) (observation_event t a o e)
  unfolding observation_event
  observation_event-Ordinary t a (AcpObservation.assistant_delta _ _ _) e =
      Yields-bind _ _ _
        (λ f. Yields-bind _ _ _ (λ c. Yields-bind _ _ _ (λ k. Yields-pure _ _ refl)))
  observation_event-Ordinary t a (AcpObservation.completed_reasoning _ _ _) e = Yields-pure _ _ refl
  observation_event-Ordinary t a (AcpObservation.context_dispatched _ _ _ _) e =
      Yields-bind _ _ _
        (λ f. Yields-bind _ _ _ (λ c. Yields-bind _ _ _ (λ k. Yields-pure _ _ refl)))
  observation_event-Ordinary t a (AcpObservation.binding_changed _) e =
      Yields-bind _ _ _
        (λ f. Yields-bind _ _ _ (λ c. Yields-bind _ _ _ (λ k. Yields-pure _ _ refl)))
  observation_event-Ordinary t a (AcpObservation.provider_update _) e =
      Yields-bind _ _ _
        (λ f. Yields-bind _ _ _ (λ c. Yields-bind _ _ _ (λ k. Yields-pure _ _ refl)))
  observation_event-Ordinary t a (AcpObservation.tool_activity _) e =
      Yields-bind _ _ _
        (λ f. Yields-bind _ _ _ (λ c. Yields-bind _ _ _ (λ k. Yields-pure _ _ refl)))
  observation_event-Ordinary t a (AcpObservation.hook_outcome _ _ _ _ _) e =
      Yields-bind _ _ _
        (λ f. Yields-bind _ _ _ (λ c. Yields-bind _ _ _ (λ k. Yields-pure _ _ refl)))

  pub record_acp_observation_transaction-Moves :
      (s t : Uid) (a k : Option String) (o : AcpObservation)
      → Moves R (record_acp_observation_transaction s t a k o)
  unfolding record_acp_observation_transaction
  record_acp_observation_transaction-Moves s t a k o = unless_observed-Moves r s k _ (
      Moves-bind (order r) _ _ (new_id-Moves r.journals) (λ entry.
        Moves-yield (order r) (λ p. is_ordinary p ≡ true) _ _ (observation_event-Moves t a o entry)
          (observation_event-Ordinary t a o entry) (λ p h. record_applied-Moves r s _ p k h)))

  pub bind_acp_session_with_observations-Moves :
      (q : BindingRequest) (t : Uid) → Moves R (bind_acp_session_with_observations q t)
  unfolding bind_acp_session_with_observations
  bind_acp_session_with_observations-Moves q t =
      search
        (
          parts, unless_observed-Moves, change_acp_binding-Moves,
          record_acp_observation_transaction-Moves,
        )
        depth 12

  pub mark_dispatched-Moves :
      (s t : Uid) (a : String) (b : AcpSessionBinding) → Moves R (mark_dispatched s t a b)
  unfolding mark_dispatched
  mark_dispatched-Moves s t a b = search (parts, record_acp_observation_transaction-Moves) depth 12

  pub mark_acp_context_dispatched_with_observation-Moves :
      (s t : Uid) (a : String) → Moves R (mark_acp_context_dispatched_with_observation s t a)
  unfolding mark_acp_context_dispatched_with_observation
  mark_acp_context_dispatched_with_observation-Moves s t a =
      search (parts, unless_observed-Moves, mark_dispatched-Moves) depth 12
