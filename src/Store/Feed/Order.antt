-- ===== src/Store/Feed/Order.antt =====
-- crates/mews-store/src/delivery.rs: the order of sequence numbers and cursors.
use mews.Prelude.{
  ℕ, suc, leb, leb→le, ◌<◌, ◌≤◌, Bool, Option, List, [], ◌∷◌, ◌++◌, All, All-keep, All-append,
  All-map, All-imp, any, keep, if_cases, Bool-cases, Option-cases, inl, inr, arith,
}
use mews.Protocol.Values.{Uid, Time}
use mews.Protocol.Events.Client.{ClientEvent, ConsumerKind}
use mews.Store.Result.{ok, err, database, unique_violation}
use mews.Store.Feed.{
  Feed, EventRow, Consumer, max_sequence, delete_consumers, prune_client_events, delete_consumer,
  unsubscribe_session, acknowledge_events, update_consumer, find_consumer, subscribe_session,
  same_kind, client_events, append_event, skip_number, insert_event, insert_or_ignore_event,
  clashes,
}
use mews.Store.Feed.Steps.{
  Call, step, after, subscribe, unsubscribe, delete, acknowledge, poll, insert, insert_or_ignore,
  prune,
}

-- The numbers rise along the list, above the first bound and up to the second.
abbrev pub Within : ℕ → ℕ → List EventRow → Type 0
Within lo hi [] = lo ≤ hi
Within lo hi (e ∷ es) = (lo < e.sequence) × Within e.sequence hi es

pub record IsOrdered (f : Feed) : Type 0 where
  pub rising : Within 0 f.last_sequence f.events
  pub cursors : All (λ c. c.cursor ≤ f.last_sequence) f.consumers

Within-weaken : (lo lo' hi : ℕ) (es : List EventRow) → lo' ≤ lo → Within lo hi es → Within lo' hi es
Within-weaken lo lo' hi [] h w = omega arith
Within-weaken lo lo' hi (e ∷ es) h w = (omega arith, w.1)

Within-raise : (lo hi hi' : ℕ) (es : List EventRow) → hi ≤ hi' → Within lo hi es → Within lo hi' es
Within-raise lo hi hi' [] h w = omega arith
Within-raise lo hi hi' (e ∷ es) h w = (w.0, Within-raise e.sequence hi hi' es h w.1)

Within-keep :
    (p : EventRow → Bool) (lo hi : ℕ) (es : List EventRow)
    → Within lo hi es
    → Within lo hi (keep p es)
unfolding keep
Within-keep p lo hi [] w = w
Within-keep p lo hi (e ∷ es) w =
    if_cases (Within lo hi) (p e) (e ∷ keep p es) (keep p es)
      (λ _. (w.0, Within-keep p e.sequence hi es w.1))
      (λ _.
        Within-weaken e.sequence lo hi (keep p es) (omega arith)
          (Within-keep p e.sequence hi es w.1))

Within-append :
    (row : EventRow) (lo hi : ℕ) (es : List EventRow)
    → hi < row.sequence
    → Within lo hi es
    → Within lo row.sequence (es ++ row ∷ [])
Within-append row lo hi [] h w = (omega arith, omega arith)
Within-append row lo hi (e ∷ es) h w = (w.0, Within-append row e.sequence hi es h w.1)

max_sequence-le : (lo hi : ℕ) (es : List EventRow) → Within lo hi es → max_sequence es ≤ hi
unfolding max_sequence
max_sequence-le lo hi [] w = omega arith
max_sequence-le lo hi (e ∷ es) w =
    omega (arith, max_sequence-le e.sequence hi es w.1, le_bound e.sequence hi es w.1)
  where
    le_bound : (lo hi : ℕ) (es : List EventRow) → Within lo hi es → lo ≤ hi
    le_bound lo hi [] w = w
    le_bound lo hi (e ∷ es) w = omega (arith, le_bound e.sequence hi es w.1)

prune-IsOrdered : (now : Time) (f : Feed) → IsOrdered f → IsOrdered (prune_client_events now f)
unfolding prune_client_events delete_consumers
prune-IsOrdered now f o = record {
  rising = Within-keep _ 0 f.last_sequence f.events o.rising;
  cursors = All-keep _ _ f.consumers o.cursors;
}

update_consumer-IsOrdered :
    (id : Uid) (h : Consumer → Consumer) (f : Feed)
    → ((c : Consumer) → c.cursor ≤ f.last_sequence → (h c).cursor ≤ f.last_sequence)
    → IsOrdered f
    → IsOrdered (record f { consumers = update_consumer id h f.consumers })
unfolding update_consumer
update_consumer-IsOrdered id h f keeps o = record {
  rising = o.rising;
  cursors =
      All-map (λ c. c.cursor ≤ f.last_sequence) _ f.consumers
        (All-imp _ _ f.consumers o.cursors (λ c w. ground (arith, keeps c w)));
}

append_event-IsOrdered : (row : EventRow) (f : Feed) → IsOrdered f → IsOrdered (append_event row f)
unfolding append_event
append_event-IsOrdered row f o = record {
  rising =
      Within-append (record row { event = record row.event { sequence = suc f.last_sequence } }) 0
        f.last_sequence f.events (omega arith) o.rising;
  cursors = All-imp _ _ f.consumers o.cursors (λ c w. omega arith);
}

acknowledge-IsOrdered :
    (id : Uid) (checkpoint : ℕ) (now later : Time) (f : Feed)
    → IsOrdered f
    → IsOrdered (after f (acknowledge_events id checkpoint now later f))
unfolding acknowledge_events
acknowledge-IsOrdered id checkpoint now later f o =
    elim (Bool-cases (leb checkpoint f.last_sequence)) [
      | inr ahead ↦ rw (ahead, acknowledge_events) o
      | inl low ↦ elim (Option-cases (find_consumer id f.consumers)) [
        | inl missing ↦ rw (low, missing, acknowledge_events) o
        | inr (c, found) ↦
            rw (low, found, acknowledge_events)
              (prune-IsOrdered later _ (
                update_consumer-IsOrdered id _ f
                  (λ c w. omega (arith, leb→le checkpoint f.last_sequence low)) o))
      ]
    ]

subscribe-IsOrdered :
    (id session : Uid) (kind : ConsumerKind) (now : Time) (f : Feed)
    → IsOrdered f
    → IsOrdered (after f (subscribe_session id session kind now f))
unfolding subscribe_session
subscribe-IsOrdered id session kind now f o = elim (Option-cases (find_consumer id f.consumers)) [
  | inl missing ↦
      rw (missing, subscribe_session)
        (record {
          rising = o.rising;
          cursors =
              All-append _ f.consumers _ o.cursors
                (max_sequence-le 0 f.last_sequence f.events o.rising, tt);
        })
  | inr (c, found) ↦ elim (Bool-cases (same_kind c.kind kind)) [
    | inl same ↦
        rw (found, same, subscribe_session)
          (record {
            rising = o.rising;
            cursors = (update_consumer-IsOrdered id _ f (λ c w. w) o).cursors;
          })
    | inr other ↦ rw (found, other, subscribe_session) o
  ]
]

poll-IsOrdered :
    (bytes : ClientEvent → Option ℕ) (id : Uid) (limit : ℕ) (now : Time) (f : Feed)
    → IsOrdered f
    → IsOrdered (client_events bytes id limit now f).1
unfolding client_events
poll-IsOrdered bytes id limit now f o = elim (Option-cases (find_consumer id f.consumers)) [
  | inl missing ↦ rw (missing, client_events) o
  | inr (c, found) ↦ rw (found, client_events) (update_consumer-IsOrdered id _ f (λ c w. w) o)
]

skip_number-IsOrdered : (f : Feed) → IsOrdered f → IsOrdered (skip_number f)
unfolding skip_number
skip_number-IsOrdered f o = record {
  rising = Within-raise 0 f.last_sequence (suc f.last_sequence) f.events (omega arith) o.rising;
  cursors = All-imp _ _ f.consumers o.cursors (λ c h. omega (arith, h));
}

-- Every call keeps the sequence numbers of the stored events rising and up to the watermark, and no
-- consumer's cursor ahead of the watermark.
pub step-IsOrdered : (c : Call) (f : Feed) → IsOrdered f → IsOrdered (step c f)
unfolding step insert_event insert_or_ignore_event delete_consumer unsubscribe_session
    delete_consumers
step-IsOrdered (subscribe c s k now) f o = subscribe-IsOrdered c s k now f o
step-IsOrdered (unsubscribe c s now) f o =
    prune-IsOrdered now _ (record { rising = o.rising; cursors = o.cursors })
step-IsOrdered (delete c now) f o =
    prune-IsOrdered now _
      (record { rising = o.rising; cursors = All-keep _ _ f.consumers o.cursors })
step-IsOrdered (acknowledge c n now later) f o = acknowledge-IsOrdered c n now later f o
step-IsOrdered (poll bytes c limit now) f o = poll-IsOrdered bytes c limit now f o
step-IsOrdered (insert row) f o =
    if_cases (λ r. IsOrdered (after f r)) (any (clashes row) f.events)
      (err (database unique_violation)) (ok (append_event row f)) (λ _. o)
      (λ _. append_event-IsOrdered row f o)
step-IsOrdered (insert_or_ignore row) f o =
    if_cases IsOrdered (any (clashes row) f.events) (skip_number f) (append_event row f)
      (λ _. skip_number-IsOrdered f o) (λ _. append_event-IsOrdered row f o)
step-IsOrdered (prune now) f o = prune-IsOrdered now f o
