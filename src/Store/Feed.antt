-- ===== src/Store/Feed.antt =====
-- crates/mews-store/src/delivery.rs: client events, their consumers, and pruning. The tables
-- `client_events`, `client_consumers` and `client_subscriptions`, in the order of their keys.
pub mod Prune
pub mod Batch
pub mod Steps
pub mod Owed
pub mod Order
mod Examples
use text.Mathlib.Text.{◌==◌ as str_eq}
use mews.Prelude.{
  ℕ, zero, suc, ◌+◌, ◌-◌, ◌*◌, ◌^◌, max, ltb, leb, ◌==◌, if◌then◌else◌, String, Bool, true, false,
  not, Option, none, some, List, [], ◌∷◌, ◌++◌, ◌&&◌, ◌||◌, map, any, keep, find, take,
}
use mews.Protocol.Events.Client.{
  ClientEvent, ClientEventKind, ConsumerKind, durable, ephemeral, EventBatch,
}
use mews.Protocol.Messages.{ChannelOrigin}
use mews.Protocol.Values.{Uid, Time}
use mews.Store.Result.{
  Result, ok, err, ◌>>=◌, ◌>>◌, guard, ok_or, StoreError, database, unique_violation, invalid_data,
  not_found, Kind, checkpoint_ahead, consumer_changes_durability, stored_event_too_large,
  serialization,
}

pub record EventRow : Type 0 where
  pub event : ClientEvent
  pub open event use *
  pub entry_id : Option Uid
  pub journal_entry_id : Option Uid
  pub journal_position : Option ℕ
  pub idempotency_key : Option String
  pub transient : Bool

pub record Consumer : Type 0 where
  pub id : Uid
  pub cursor : ℕ
  pub kind : ConsumerKind
  pub created_at : Time
  pub last_seen_at : Time

pub record Subscription : Type 0 where
  pub consumer_id : Uid
  pub session_id : Uid

-- `last_sequence` is the AUTOINCREMENT watermark in `sqlite_sequence`.
pub record Feed : Type 0 where
  pub events : List EventRow
  pub last_sequence : ℕ
  pub consumers : List Consumer
  pub subscriptions : List Subscription

-- EPHEMERAL_CONSUMER_LEASE_SECONDS, in nanoseconds.
abbrev pub ephemeral_lease : ℕ
ephemeral_lease = 120 * 10 ^ 9

-- MAX_EVENT_PAGE_PAYLOAD_BYTES
abbrev pub max_event_page_payload_bytes : ℕ
max_event_page_payload_bytes = 1024 * 1024 - 256 * 1024

abbrev pub is_durable : ConsumerKind → Bool
is_durable durable = true
is_durable ephemeral = false

abbrev pub same_kind : ConsumerKind → ConsumerKind → Bool
same_kind durable durable = true
same_kind ephemeral ephemeral = true
same_kind _ _ = false

unfoldable pub subscribed : List Subscription → Uid → Uid → Bool
subscribed subs consumer session =
    any (λ s. s.consumer_id == consumer && s.session_id == session) subs

-- SELECT COALESCE(MAX(sequence), 0)
unfoldable pub max_sequence : List EventRow → ℕ
max_sequence [] = 0
max_sequence (e ∷ es) = max e.sequence (max_sequence es)

unfoldable pub find_consumer : Uid → List Consumer → Option Consumer
find_consumer id = find (λ c. c.id == id)

-- UPDATE client_consumers SET … WHERE id = …
unfoldable pub update_consumer : Uid → (Consumer → Consumer) → List Consumer → List Consumer
update_consumer id f = map (λ c. if c.id == id then f c else c)

unfoldable pub add_subscription : Uid → Uid → List Subscription → List Subscription
add_subscription consumer session subs =
    if subscribed subs consumer session
    then subs
    else subs ++ record { consumer_id = consumer; session_id = session } ∷ []

-- The rest of `subscribe_session`, once the session is known to exist.
unfoldable pub subscribe_session : Uid → Uid → ConsumerKind → Time → Feed → Result Feed
subscribe_session consumer session kind now f = do
  consumers ← elim (find_consumer consumer f.consumers) [
    | none ↦ ok (
        f.consumers
        ++ record {
          id = consumer;
          cursor = max_sequence f.events;
          kind = kind;
          created_at = now;
          last_seen_at = now;
        }
          ∷ [])
    | some c ↦
        if same_kind c.kind kind
        then ok (
            update_consumer consumer (λ c. record c { kind = kind; last_seen_at = now })
              f.consumers)
        else err (invalid_data consumer_changes_durability)
  ]
  ok (record f {
    consumers = consumers;
    subscriptions = add_subscription consumer session f.subscriptions;
  })

-- DELETE FROM client_consumers with its ON DELETE CASCADE.
unfoldable pub delete_consumers : (Consumer → Bool) → Feed → Feed
delete_consumers gone f = record f {
  consumers = keep (λ c. not (gone c)) f.consumers;
  subscriptions =
      keep (λ s. not (any (λ c. gone c && c.id == s.consumer_id) f.consumers)) f.subscriptions;
}

-- EXISTS over the subscriptions to a session joined with their consumers.
unfoldable pub some_subscriber : Feed → Uid → (Consumer → Bool) → Bool
unfolding subscribed
some_subscriber f session p = any (λ c. subscribed f.subscriptions c.id session && p c) f.consumers

abbrev pub behind : EventRow → Consumer → Bool
behind e c = ltb c.cursor e.sequence

-- The WHERE clause of the second statement of `prune_client_events`.
unfoldable pub prunable : Feed → EventRow → Bool
prunable f e =
    (e.transient && not (some_subscriber f e.session_id (behind e)))
    || ((not e.transient && some_subscriber f e.session_id (λ c. is_durable c.kind))
        && not (some_subscriber f e.session_id (λ c. is_durable c.kind && behind e c)))
    || ((not e.transient && not (some_subscriber f e.session_id (λ c. is_durable c.kind)))
        && not (some_subscriber f e.session_id (behind e)))

abbrev pub expired : Time → Consumer → Bool
expired now c = not (is_durable c.kind) && ltb (c.last_seen_at + ephemeral_lease) now

unfoldable pub prune_client_events : Time → Feed → Feed
unfolding delete_consumers prunable
prune_client_events now f =
    let g = delete_consumers (expired now) f in
    record g { events = keep (λ e. not (prunable g e)) g.events }

unfoldable pub delete_consumer : Uid → Time → Feed → Feed
delete_consumer consumer now f =
    prune_client_events now (delete_consumers (λ c. c.id == consumer) f)

unfoldable pub unsubscribe_session : Uid → Uid → Time → Feed → Feed
unsubscribe_session consumer session now f = prune_client_events now (record f {
  subscriptions =
      keep (λ s. not (s.consumer_id == consumer && s.session_id == session)) f.subscriptions;
})

unfoldable pub acknowledge_events : Uid → ℕ → Time → Time → Feed → Result Feed
acknowledge_events consumer checkpoint now later f = do
  guard (leb checkpoint f.last_sequence) (invalid_data checkpoint_ahead)
  known ← ok_or (find_consumer consumer f.consumers) (not_found Kind.event_consumer consumer)
  ok (
      prune_client_events later (record f {
        consumers =
            update_consumer consumer
              (λ c. record c { cursor = max c.cursor checkpoint; last_seen_at = now }) f.consumers;
      }))

-- The rows of the query of `client_events`, before LIMIT.
unfoldable pub pending : Feed → Uid → ℕ → List ClientEvent
unfolding subscribed
pending f consumer cursor =
    map (λ e. e.event)
      (keep (λ e. subscribed f.subscriptions consumer e.session_id && ltb cursor e.sequence)
        f.events)

-- The loop over those rows: whether it has an event already, and the bytes so far.
unfoldable pub page :
    (ClientEvent → Option ℕ) → Bool → ℕ → List ClientEvent → Result (List ClientEvent)
page bytes started payload [] = ok []
page bytes started payload (e ∷ es) = ok_or (bytes e) (invalid_data serialization) >>= λ n.
    (let more = page bytes true (payload + n) es in
      if ltb max_event_page_payload_bytes n
      then err (invalid_data stored_event_too_large)
      else if started && ltb max_event_page_payload_bytes (payload + n)
      then ok []
      else (more >>= λ rest. ok (e ∷ rest)))

-- `events.last().map_or(cursor, |event| event.sequence)`
unfoldable pub last_sequence_of : ℕ → List ClientEvent → ℕ
last_sequence_of cursor [] = cursor
last_sequence_of cursor (e ∷ es) = last_sequence_of e.sequence es

-- The update of `last_seen_at` commits at once, whether or not the page can be read.
unfoldable pub client_events :
    (ClientEvent → Option ℕ) → Uid → ℕ → Time → Feed → Result EventBatch × Feed
client_events bytes consumer limit now f = elim (find_consumer consumer f.consumers) [
  | none ↦ (err (not_found Kind.event_consumer consumer), f)
  | some c ↦
      let batch : Result EventBatch = (do
        events ← page bytes false 0 (take limit (pending f consumer c.cursor))
        let checkpoint = last_sequence_of c.cursor events
        ok (record {
          events = events;
          checkpoint = checkpoint;
          advanced = ltb c.cursor checkpoint;
        })) in
      (
        batch,
        record f {
          consumers = update_consumer consumer (λ c. record c { last_seen_at = now }) f.consumers;
        },
      )
]

abbrev pub same_key : Option String → Option String → Bool
same_key (some a) (some b) = str_eq a b
same_key _ _ = false

-- A UNIQUE constraint on `id`, and one on `(session_id, idempotency_key)` that leaves NULL alone.
unfoldable pub clashes : EventRow → EventRow → Bool
clashes new old =
    new.id == old.id
    || new.session_id == old.session_id && same_key new.idempotency_key old.idempotency_key

-- The row takes the next AUTOINCREMENT number.
unfoldable pub append_event : EventRow → Feed → Feed
append_event row f = record f {
  events =
      f.events ++ record row { event = record row.event { sequence = suc f.last_sequence } } ∷ [];
  last_sequence = suc f.last_sequence;
}

-- INSERT INTO client_events
unfoldable pub insert_event : EventRow → Feed → Result Feed
unfolding clashes
insert_event row f =
    if any (clashes row) f.events then err (database unique_violation) else ok (append_event row f)

-- An insertion that is ignored has taken its AUTOINCREMENT number all the same.
unfoldable pub skip_number : Feed → Feed
skip_number f = record f { last_sequence = suc f.last_sequence }

-- INSERT OR IGNORE INTO client_events
unfoldable pub insert_or_ignore_event : EventRow → Feed → Feed
unfolding clashes skip_number
insert_or_ignore_event row f =
    if any (clashes row) f.events then skip_number f else append_event row f
