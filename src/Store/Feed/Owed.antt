-- ===== src/Store/Feed/Owed.antt =====
-- What a durable consumer is owed stays stored until it gives it up.
pub mod Calls
use mews.Prelude.{
  leb, ℕ, suc, zero, max, ◌+◌, ◌<◌, ◌≤◌, ◌≡◌, ◌≢◌, refl, ap, sym, ◌∙◌, Bool, true, false, not,
  Option, none, some, List, [], ◌∷◌, ◌++◌, ◌&&◌, ◌||◌, All, All-keep, All-append, All-of, All-imp,
  In, In-keep, In-append, any, any_of_any, any_imp, any-keep, any-append, any-false, any-map,
  All-map, find_none, find-some, if_cases, subst, keep, map, find, ◌==◌, ==_iff, ltb, arith, inl,
  inr, Bool-cases, Option-cases,
}
use mews.Protocol.Values.{Uid, Time}
use mews.Protocol.Events.Client.{ConsumerKind, ClientEvent}
use mews.Store.Result.{database, unique_violation, Result, ok, err, ◌>>=◌, ◌>>◌, guard, ok_or}
use mews.Store.Feed.{
  Feed, EventRow, Consumer, Subscription, is_durable, subscribed, some_subscriber, prunable, behind,
  expired, delete_consumers, prune_client_events, delete_consumer, unsubscribe_session,
  acknowledge_events, update_consumer, find_consumer, subscribe_session, add_subscription,
  client_events, append_event, insert_event, insert_or_ignore_event, clashes, same_kind,
}
use mews.Store.Feed.Prune.{prunable-false}
use mews.Store.Feed.Steps.{
  Owed, Keeps, Call, step, run, after, subscribe, unsubscribe, delete, acknowledge, poll, insert,
  insert_or_ignore, prune,
}

module _ (consumer : Uid) (e : EventRow) where
  -- Every row of the consumer waits, and there is one: somebody durable is behind.
  Owed-behind :
      (f : Feed)
      → Owed consumer e f
      → some_subscriber f e.session_id (λ c. is_durable c.kind && behind e c) ≡ true
  unfolding some_subscriber subscribed
  Owed-behind f o = any_of_any _ _ f.consumers o.known (All-imp _ _ f.consumers o.waiting waits)
    where
      waits :
          (c : Consumer)
          → ((c.id == consumer) ≡ true → (is_durable c.kind ≡ true) × (c.cursor < e.sequence))
          → (c.id == consumer) ≡ true
          → (subscribed f.subscriptions c.id e.session_id && (is_durable c.kind && behind e c))
            ≡ true
      waits c w same = ground (
        arith,
        w same,
        o.subscribes,
        ap (λ i. subscribed f.subscriptions i e.session_id) ((==_iff c.id consumer).0 same),
      )

  pub delete_consumers-Owed :
      (gone : Consumer → Bool) (f : Feed)
      → All (λ c. (c.id == consumer) ≡ true → gone c ≡ false) f.consumers
      → Owed consumer e f
      → Owed consumer e (delete_consumers gone f)
  unfolding delete_consumers subscribed
  delete_consumers-Owed gone f stay o = record {
    stored = o.stored;
    subscribes = any-keep _ _ f.subscriptions o.subscribes (All-of _ f.subscriptions kept);
    known =
        any-keep _ _ f.consumers o.known
          (All-imp _ _ f.consumers stay (λ c w same. ground (arith, w same)));
    waiting = All-keep _ _ f.consumers o.waiting;
  }
    where
      kept :
          (s : Subscription)
          → (s.consumer_id == consumer && s.session_id == e.session_id) ≡ true
          → not (any (λ c. gone c && c.id == s.consumer_id) f.consumers) ≡ true
      kept s p = ground (
        arith,
        any-false (λ c. gone c && c.id == s.consumer_id) f.consumers
            (All-imp _ _ f.consumers stay (λ c w. ground arith)),
      )

  pub prune-Owed :
      (now : Time) (f : Feed) → Owed consumer e f → Owed consumer e (prune_client_events now f)
  unfolding prune_client_events
  prune-Owed now f o = record {
    stored =
        (In-keep e _ f.events).1
          (o.stored, ground (arith, prunable-false g e (Owed-behind g owed)));
    subscribes = owed.subscribes;
    known = owed.known;
    waiting = owed.waiting;
  }
    where
      g : Feed
      g = delete_consumers (expired now) f

      owed : Owed consumer e g
      owed =
          delete_consumers-Owed (expired now) f
            (All-imp _ _ f.consumers o.waiting (λ c w same. ground (arith, w same))) o

  -- An update of rows that keeps their keys, and what the consumer's rows wait for.
  pub update_consumer-Owed :
      (id : Uid) (h : Consumer → Consumer) (f : Feed)
      → ((c : Consumer) → (h c).id ≡ c.id)
      → ((c : Consumer)
          → (c.id == id) ≡ true
          → (c.id == consumer) ≡ true
          → (is_durable c.kind ≡ true) × (c.cursor < e.sequence)
          → (is_durable (h c).kind ≡ true) × ((h c).cursor < e.sequence))
      → Owed consumer e f
      → Owed consumer e (record f { consumers = update_consumer id h f.consumers })
  unfolding update_consumer
  update_consumer-Owed id h f same keeps o = record {
    stored = o.stored;
    subscribes = o.subscribes;
    known =
        any-map _ _ f.consumers ∙ any_imp _ _ f.consumers o.known (λ c k. ground (arith, same c));
    waiting =
        All-map _ _ f.consumers
          (All-imp _ _ f.consumers o.waiting (λ c w k. ground (arith, same c, w, keeps c)));
  }
