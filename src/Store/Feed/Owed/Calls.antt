-- ===== src/Store/Feed/Owed/Calls.antt =====
-- Each call of the delivery store keeps what a durable consumer is owed.
use mews.Prelude.{
  leb, ℕ, max, ◌<◌, ◌≡◌, ◌≢◌, refl, ap, ◌∙◌, true, not, Option, none, some, List, [], ◌∷◌, ◌++◌,
  ◌&&◌, All, All-append, All-of, In-append, any, any-keep, any-append, find_none, find-some,
  if_cases, ◌==◌, ==_iff, arith, inl, inr, Bool-cases, Option-cases,
}
use mews.Protocol.Values.{Uid, Time}
use mews.Protocol.Events.Client.{ConsumerKind, ClientEvent}
use mews.Store.Result.{database, unique_violation, ok, err}
use mews.Store.Feed.{
  Feed, EventRow, Consumer, Subscription, is_durable, subscribed, behind, delete_consumer,
  unsubscribe_session, acknowledge_events, find_consumer, subscribe_session, add_subscription,
  client_events, append_event, skip_number, insert_event, insert_or_ignore_event, clashes,
  same_kind,
}
use mews.Store.Feed.Steps.{
  Owed, Keeps, Call, step, run, after, subscribe, unsubscribe, delete, acknowledge, poll, insert,
  insert_or_ignore, prune,
}
use mews.Store.Feed.Owed.{delete_consumers-Owed, prune-Owed, update_consumer-Owed}

module _ (consumer : Uid) (e : EventRow) where
  append_event-Owed :
      (row : EventRow) (f : Feed) → Owed consumer e f → Owed consumer e (append_event row f)
  unfolding append_event
  append_event-Owed row f o = record {
    stored = (In-append e f.events _).1 (inl o.stored);
    subscribes = o.subscribes;
    known = o.known;
    waiting = o.waiting;
  }

  insert_event-Owed :
      (row : EventRow) (f : Feed)
      → Owed consumer e f
      → Owed consumer e (after f (insert_event row f))
  unfolding insert_event
  insert_event-Owed row f o =
      if_cases (λ r. Owed consumer e (after f r)) (any (clashes row) f.events)
        (err (database unique_violation)) (ok (append_event row f)) (λ _. o)
        (λ _. append_event-Owed row f o)

  skip_number-Owed : (f : Feed) → Owed consumer e f → Owed consumer e (skip_number f)
  unfolding skip_number
  skip_number-Owed f o = record {
    stored = o.stored;
    subscribes = o.subscribes;
    known = o.known;
    waiting = o.waiting;
  }

  insert_or_ignore_event-Owed :
      (row : EventRow) (f : Feed)
      → Owed consumer e f
      → Owed consumer e (insert_or_ignore_event row f)
  unfolding insert_or_ignore_event
  insert_or_ignore_event-Owed row f o =
      if_cases (Owed consumer e) _ _ _ (λ _. skip_number-Owed f o) (λ _. append_event-Owed row f o)

  client_events-Owed :
      (bytes : ClientEvent → Option ℕ) (id : Uid) (limit : ℕ) (now : Time) (f : Feed)
      → Owed consumer e f
      → Owed consumer e (client_events bytes id limit now f).1
  unfolding client_events
  client_events-Owed bytes id limit now f o = elim (Option-cases (find_consumer id f.consumers)) [
    | inl missing ↦ rw (missing, client_events) o
    | inr (c, found) ↦
        rw (found, client_events)
          (update_consumer-Owed consumer e id _ f (λ c. refl) (λ c _ _ w. w) o)
  ]

  acknowledge_events-Owed :
      (id : Uid) (checkpoint : ℕ) (now later : Time) (f : Feed)
      → (id ≡ consumer → checkpoint < e.sequence)
      → Owed consumer e f
      → Owed consumer e (after f (acknowledge_events id checkpoint now later f))
  unfolding acknowledge_events
  acknowledge_events-Owed id checkpoint now later f low o =
      elim (Bool-cases (leb checkpoint f.last_sequence)) [
        | inr ahead ↦ rw (ahead, acknowledge_events) o
        | inl behind ↦ elim (Option-cases (find_consumer id f.consumers)) [
          | inl missing ↦ rw (behind, missing, acknowledge_events) o
          | inr (c, found) ↦
              rw (behind, found, acknowledge_events)
                (prune-Owed consumer e later _
                  (update_consumer-Owed consumer e id _ f (λ c. refl) raised o))
        ]
      ]
    where
      raised :
          (c : Consumer)
          → (c.id == id) ≡ true
          → (c.id == consumer) ≡ true
          → (is_durable c.kind ≡ true) × (c.cursor < e.sequence)
          → (is_durable c.kind ≡ true) × (max c.cursor checkpoint < e.sequence)
      raised c h k w = ground (arith, w, low)

  unsubscribe_session-Owed :
      (id session : Uid) (now : Time) (f : Feed)
      → (id ≡ consumer → session ≢ e.session_id)
      → Owed consumer e f
      → Owed consumer e (unsubscribe_session id session now f)
  unfolding unsubscribe_session subscribed
  unsubscribe_session-Owed id session now f other o = prune-Owed consumer e now _ (record {
    stored = o.stored;
    subscribes = any-keep _ _ f.subscriptions o.subscribes (All-of _ f.subscriptions left);
    known = o.known;
    waiting = o.waiting;
  })
    where
      left :
          (s : Subscription)
          → (s.consumer_id == consumer && s.session_id == e.session_id) ≡ true
          → not (s.consumer_id == id && s.session_id == session) ≡ true
      left s p = ground (arith, other)

  delete_consumer-Owed :
      (id : Uid) (now : Time) (f : Feed)
      → id ≢ consumer
      → Owed consumer e f
      → Owed consumer e (delete_consumer id now f)
  unfolding delete_consumer
  delete_consumer-Owed id now f other o =
      prune-Owed consumer e now _
        (delete_consumers-Owed consumer e _ f (All-of _ f.consumers (λ c same. ground arith)) o)

  add_subscription-keeps :
      (id session : Uid) (subs : List Subscription)
      → subscribed subs consumer e.session_id ≡ true
      → subscribed (add_subscription id session subs) consumer e.session_id ≡ true
  unfolding add_subscription subscribed
  add_subscription-keeps id session subs h =
      if_cases (λ r. subscribed r consumer e.session_id ≡ true) (subscribed subs id session) subs
        (subs ++ record { consumer_id = id; session_id = session } ∷ []) (λ _. h) (λ _. grown)
    where
      grown :
          subscribed
            (subs ++ record { consumer_id = id; session_id = session } ∷ [])
            consumer
            e.session_id
          ≡ true
      grown = ground (
        arith,
        h,
        any-append (λ (s : Subscription). s.consumer_id == consumer && s.session_id == e.session_id)
            subs (record { consumer_id = id; session_id = session } ∷ []),
      )

  -- A new row in the table of consumers is of another consumer.
  new_consumer-Owed :
      (c : Consumer) (f : Feed)
      → find_consumer c.id f.consumers ≡ none
      → Owed consumer e f
      → Owed consumer e (record f { consumers = f.consumers ++ c ∷ [] })
  unfolding find_consumer
  new_consumer-Owed c f missing o = record {
    stored = o.stored;
    subscribes = o.subscribes;
    known = any-append _ f.consumers _ ∙ ground (arith, o.known);
    waiting = All-append _ f.consumers _ o.waiting (λ same. absurd (taken same), tt);
  }
    where
      taken : (c.id == consumer) ≡ true → ⊥
      taken same = cc (
        find_none (λ x. x.id == c.id) f.consumers missing,
        o.known,
        ap (λ i. any (λ x. x.id == i) f.consumers) ((==_iff c.id consumer).0 same),
      )

  found_waits :
      (id : Uid) (c : Consumer) (f : Feed)
      → find_consumer id f.consumers ≡ some c
      → Owed consumer e f
      → ((c.id == id) ≡ true)
        × ((c.id == consumer) ≡ true → (is_durable c.kind ≡ true) × (c.cursor < e.sequence))
  unfolding find_consumer
  found_waits id c f found o =
      find-some
        (λ c. (c.id == consumer) ≡ true → (is_durable c.kind ≡ true) × (c.cursor < e.sequence))
        (λ c. c.id == id) f.consumers found o.waiting

  subscribe_session-Owed :
      (id session : Uid) (kind : ConsumerKind) (now : Time) (f : Feed)
      → Owed consumer e f
      → Owed consumer e (after f (subscribe_session id session kind now f))
  unfolding subscribe_session
  subscribe_session-Owed id session kind now f o =
      elim (Option-cases (find_consumer id f.consumers)) [
        | inl missing ↦
            rw (missing, subscribe_session) (subscribing (new_consumer-Owed _ f missing o))
        | inr (c, found) ↦ elim (Bool-cases (same_kind c.kind kind)) [
          | inl same ↦
              rw (found, same, subscribe_session)
                (subscribing
                  (update_consumer-Owed consumer e id _ f (λ c. refl) (kept c found same) o))
          | inr other ↦ rw (found, other, subscribe_session) o
        ]
      ]
    where
      subscribing :
          {consumers : List Consumer}
          → Owed consumer e (record f { consumers = consumers })
          → Owed consumer e (record f {
            consumers = consumers;
            subscriptions = add_subscription id session f.subscriptions;
          })
      subscribing p = record {
        stored = p.stored;
        subscribes = add_subscription-keeps id session f.subscriptions p.subscribes;
        known = p.known;
        waiting = p.waiting;
      }

      kept :
          (c : Consumer)
          → find_consumer id f.consumers ≡ some c
          → same_kind c.kind kind ≡ true
          → (d : Consumer) → (d.id == id) ≡ true
          → (d.id == consumer) ≡ true
          → (is_durable d.kind ≡ true) × (d.cursor < e.sequence)
          → (is_durable kind ≡ true) × (d.cursor < e.sequence)
      kept c found same d here mine w = ground (arith, found_waits id c f found o)

  -- A call that the consumer does not make to give up the event leaves it owed.
  step-Owed :
      (c : Call) (f : Feed) → Keeps consumer e c → Owed consumer e f → Owed consumer e (step c f)
  unfolding step
  step-Owed (subscribe c s k now) f h o = subscribe_session-Owed c s k now f o
  step-Owed (unsubscribe c s now) f h o = unsubscribe_session-Owed c s now f h o
  step-Owed (delete c now) f h o = delete_consumer-Owed c now f h o
  step-Owed (acknowledge c n now later) f h o = acknowledge_events-Owed c n now later f h o
  step-Owed (poll bytes c limit now) f h o = client_events-Owed bytes c limit now f o
  step-Owed (insert row) f h o = insert_event-Owed row f o
  step-Owed (insert_or_ignore row) f h o = insert_or_ignore_event-Owed row f o
  step-Owed (prune now) f h o = prune-Owed consumer e now f o

  -- A stored event that a durable subscriber has not acknowledged stays stored, and owed to it,
  -- through any calls in which that consumer does not leave the session, go, or acknowledge as far
  -- as the event.
  pub run-Owed :
      (cs : List Call) (f : Feed)
      → All (Keeps consumer e) cs
      → Owed consumer e f
      → Owed consumer e (run cs f)
  unfolding run
  run-Owed [] f h o = o
  run-Owed (c ∷ cs) f h o = run-Owed cs (step c f) h.1 (step-Owed c f h.0 o)
