-- ===== src/Store/Feed/Prune.antt =====
-- crates/mews-store/src/delivery.rs, prune_client_events: which events are kept.
use mews.Prelude.{◌≡◌, true, false, ◌&&◌, In, In-keep, any_imp, arith}
use mews.Protocol.Values.{Time}
use mews.Store.Feed.{
  Feed, EventRow, is_durable, some_subscriber, prunable, behind, expired, delete_consumers,
  prune_client_events,
}

-- A subscriber that is durable and behind is behind.
durable_behind :
    (f : Feed) (e : EventRow)
    → some_subscriber f e.session_id (λ c. is_durable c.kind && behind e c) ≡ true
    → some_subscriber f e.session_id (behind e) ≡ true
unfolding some_subscriber
durable_behind f e h = any_imp _ _ f.consumers h (λ c k. ground arith)

-- An event that a durable subscriber is behind on is not prunable.
pub prunable-false :
    (f : Feed) (e : EventRow)
    → some_subscriber f e.session_id (λ c. is_durable c.kind && behind e c) ≡ true
    → prunable f e ≡ false
unfolding prunable
prunable-false f e h = ground (arith, durable_behind f e h)

prunable_waits :
    (f : Feed) (e : EventRow)
    → prunable f e ≡ false
    → some_subscriber f e.session_id (behind e) ≡ true
unfolding prunable
prunable_waits f e h = ground (arith, durable_behind f e)

-- An event that is stored after pruning was stored before, and a subscriber that is left is behind on it: what everybody has acknowledged is gone.
pub prune_reclaims :
    (now : Time) (f : Feed) (e : EventRow)
    → In e (prune_client_events now f).events
    → In e f.events × (some_subscriber (prune_client_events now f) e.session_id (behind e) ≡ true)
unfolding prune_client_events delete_consumers some_subscriber
prune_reclaims now f e i =
    let (old, left) = (In-keep e _ f.events).0 i in
    (old, prunable_waits (delete_consumers (expired now) f) e (ground arith))
