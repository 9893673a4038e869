-- ===== src/Store/Feed/Examples.antt =====
-- The feed's theorems at a feed of one stored event, a durable consumer and an ephemeral one.
use mews.Prelude.{
  ℕ, ◌≡◌, refl, true, false, none, some, List, [], ◌∷◌, In, any, keep, find, inl, arith,
}
use mews.Protocol.Events.Client.{ClientEvent, ClientEventKind, ConsumerKind, EventBatch}
use mews.Store.Result.{ok}
use mews.Store.Feed.{
  Feed, EventRow, Consumer, subscribed, some_subscriber, behind, find_consumer, prune_client_events,
  client_events,
}
use mews.Store.Feed.Steps.{Call, step, run, Owed, acknowledge, prune, delete, insert}
use mews.Store.Feed.Order.{IsOrdered, step-IsOrdered}
use mews.Store.Feed.Prune.{prune_reclaims}
use mews.Store.Feed.Owed.Calls.{run-Owed}
use mews.Store.Feed.Batch.Laws.{IsBatch, client_events_lem}

abbrev completed : EventRow
completed = record {
  event = record {
    id = 40;
    sequence = 1;
    session_id = 7;
    channel_origin = none;
    kind = ClientEventKind.turn_completed 3;
    created_at = 100;
  };
  entry_id = some 50;
  journal_entry_id = some 60;
  journal_position = some 9;
  idempotency_key = none;
  transient = false;
}

abbrev phone : Consumer
phone = record { id = 1; cursor = 0; kind = ConsumerKind.durable; created_at = 5; last_seen_at = 5 }

abbrev shell : Consumer
shell = record {
  id = 2;
  cursor = 0;
  kind = ConsumerKind.ephemeral;
  created_at = 5;
  last_seen_at = 5;
}

abbrev feed : Feed
feed = record {
  events = completed ∷ [];
  last_sequence = 1;
  consumers = phone ∷ shell ∷ [];
  subscriptions =
      record { consumer_id = 1; session_id = 7 } ∷ record { consumer_id = 2; session_id = 7 } ∷ [];
}

abbrev calls : List Call
calls = acknowledge 2 1 200 201 ∷ delete 2 300 ∷ insert completed ∷ prune (200000000000) ∷ []

feed-Owed : Owed 1 completed feed
unfolding subscribed any
feed-Owed = record {
  stored = inl refl;
  subscribes = refl;
  known = refl;
  waiting = (λ _. (refl, omega arith), (λ h. absurd (cc), tt));
}

feed-IsOrdered : IsOrdered feed
feed-IsOrdered = record {
  rising = (omega arith, omega arith);
  cursors = (omega arith, (omega arith, tt));
}

-- The event survives the ephemeral consumer and a prune.
run-Owed_example : Owed 1 completed (run calls feed)
run-Owed_example =
    run-Owed 1 completed calls feed
      (λ h. absurd (omega arith), (λ h. absurd (omega arith), (tt, (tt, tt)))) feed-Owed

step-IsOrdered_example : IsOrdered (step (acknowledge 1 1 200 201) feed)
step-IsOrdered_example = step-IsOrdered (acknowledge 1 1 200 201) feed feed-IsOrdered

still_stored : In completed (prune_client_events (200000000000) feed).events
unfolding prune_client_events keep some_subscriber any
still_stored = inl refl

prune_reclaims_example :
    In completed feed.events
    × (some_subscriber (prune_client_events (200000000000) feed) 7 (behind completed) ≡ true)
prune_reclaims_example = prune_reclaims (200000000000) feed completed still_stored

abbrev size : ClientEvent → ℕ
size e = 100

phone_found : find_consumer 1 feed.consumers ≡ some phone
unfolding find_consumer find
phone_found = refl

client_events_lem_example :
    (b : EventBatch) × ((client_events (λ e. some (size e)) 1 10 400 feed).0 ≡ ok b)
    × IsBatch size feed 1 0 10 b
client_events_lem_example =
    client_events_lem (λ e. some (size e)) size (λ e. refl) feed 1 10 400 phone feed-IsOrdered
      (omega arith, tt) phone_found
