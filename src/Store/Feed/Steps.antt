-- ===== src/Store/Feed/Steps.antt =====
-- The calls of the delivery store as steps, and what a durable consumer is owed.
use mews.Prelude.{ℕ, ◌<◌, ◌≡◌, ◌≢◌, true, Option, List, [], ◌∷◌, All, In, any, ◌==◌}
use mews.Protocol.Events.Client.{ClientEvent, ConsumerKind}
use mews.Protocol.Values.{Uid, Time}
use mews.Store.Result.{Result, ok, err}
use mews.Store.Feed.{
  Feed, EventRow, is_durable, subscribed, subscribe_session, delete_consumer, unsubscribe_session,
  acknowledge_events, prune_client_events, client_events, insert_event, insert_or_ignore_event,
}

pub data Call : Type 0 where
  subscribe : Uid → Uid → ConsumerKind → Time → Call
  unsubscribe : Uid → Uid → Time → Call
  delete : Uid → Time → Call
  acknowledge : Uid → ℕ → Time → Time → Call
  poll : (ClientEvent → Option ℕ) → Uid → ℕ → Time → Call
  insert : EventRow → Call
  insert_or_ignore : EventRow → Call
  prune : Time → Call

-- A call that fails leaves the tables as they were.
abbrev pub after : Feed → Result Feed → Feed
after f (ok g) = g
after f (err e) = f

unfoldable pub step : Call → Feed → Feed
step (subscribe c s k now) f = after f (subscribe_session c s k now f)
step (unsubscribe c s now) f = unsubscribe_session c s now f
step (delete c now) f = delete_consumer c now f
step (acknowledge c n now later) f = after f (acknowledge_events c n now later f)
step (poll bytes c limit now) f = (client_events bytes c limit now f).1
step (insert row) f = after f (insert_event row f)
step (insert_or_ignore row) f = insert_or_ignore_event row f
step (prune now) f = prune_client_events now f

unfoldable pub run : List Call → Feed → Feed
unfolding step
run [] f = f
run (c ∷ cs) f = run cs (step c f)

-- The event is stored, and a durable consumer that is subscribed to its session has not
-- acknowledged it.
pub record Owed (consumer : Uid) (e : EventRow) (f : Feed) : Type 0 where
  pub stored : In e f.events
  pub subscribes : subscribed f.subscriptions consumer e.session_id ≡ true
  pub known : any (λ c. c.id == consumer) f.consumers ≡ true
  pub waiting :
      All
        (λ c. (c.id == consumer) ≡ true → (is_durable c.kind ≡ true) × (c.cursor < e.sequence))
        f.consumers

-- The consumer itself gives up the event: it goes, leaves the session, or acknowledges this far.
abbrev pub Keeps : Uid → EventRow → Call → Type 0
Keeps consumer e (unsubscribe c s now) = (c ≡ consumer) → (s ≢ e.session_id)
Keeps consumer e (delete c now) = c ≢ consumer
Keeps consumer e (acknowledge c n now later) = c ≡ consumer → n < e.sequence
Keeps consumer e _ = Unit {0}
