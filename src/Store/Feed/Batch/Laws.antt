-- ===== src/Store/Feed/Batch/Laws.antt =====
-- crates/mews-store/src/delivery.rs, client_events: the batch that a poll returns.
use mathlib.Core.List.{append_assoc}
use mews.Prelude.{
  ℕ, zero, suc, ◌+◌, ◌<◌, ◌≤◌, ◌≡◌, refl, ap, sym, subst, ◌∙◌, false, Option, some, List, [], ◌∷◌,
  ◌++◌, All, All-map, All-keep, take, drop, take-drop, ◌⊎◌, List-cases, length, length-append, inl,
  inr, arith, ltb,
}
use mews.Protocol.Values.{Time}
use mews.Protocol.Events.Client.{ClientEvent, EventBatch}
use mews.Store.Result.{ok}
use mews.Store.Feed.{
  Feed, Consumer, subscribed, find_consumer, pending, last_sequence_of, client_events,
  max_event_page_payload_bytes,
}
use mews.Store.Feed.Order.{IsOrdered}
use mews.Store.Feed.Batch.{total, IsPage, IsPage-parts, IsPage-some, page_lem}
use mews.Store.Feed.Batch.Limit.{All-take, length-take-le, take-ne-nil}
use mews.Store.Feed.Batch.Resume.{behind-last, lt-last}

-- What a batch is for a consumer at a cursor.
pub record IsBatch (size : ClientEvent → ℕ) (f : Feed) (consumer cursor limit : ℕ) (b : EventBatch)
    : Type 0 where
  pub bounded : total size b.events ≤ max_event_page_payload_bytes
  pub limited : length b.events ≤ limit
  pub resumes : pending f consumer cursor ≡ b.events ++ pending f consumer b.checkpoint
  pub advances : (limit ≡ 0) ⊎ (pending f consumer cursor ≡ []) ⊎ (cursor < b.checkpoint)

module _ (bytes : ClientEvent → Option ℕ) (size : ClientEvent → ℕ)
    (sized : (e : ClientEvent) → bytes e ≡ some (size e)) (f : Feed) (consumer limit : ℕ)
    (now : Time) (c : Consumer) (ordered : IsOrdered f)
    (fits : All (λ e. size e.event ≤ max_event_page_payload_bytes) f.events)
    (found : find_consumer consumer f.consumers ≡ some c) where
  batch_of : List ClientEvent → EventBatch
  batch_of events = record {
    events = events;
    checkpoint = last_sequence_of c.cursor events;
    advanced = ltb c.cursor (last_sequence_of c.cursor events);
  }

  pending-fits : All (λ e. size e ≤ max_event_page_payload_bytes) (pending f consumer c.cursor)
  unfolding pending
  pending-fits = All-map _ _ _ (All-keep _ _ f.events fits)

  batch_of-IsBatch :
      (out rest : List ClientEvent)
      → IsPage bytes size sized 0 (take limit (pending f consumer c.cursor)) out rest
      → IsBatch size f consumer c.cursor limit (batch_of out)
  unfolding batch_of pending
  batch_of-IsBatch out rest isp = record {
    bounded = omega (arith, parts.1);
    limited = omega (
      arith,
      length-take-le limit (pending f consumer c.cursor),
      ap length parts.0,
      length-append out rest,
    );
    resumes = whole ∙ ap (◌++◌ out) (sym behind_out);
    advances = advance limit refl (List-cases (pending f consumer c.cursor));
  }
    where
      parts :
          (take limit (pending f consumer c.cursor) ≡ out ++ rest)
          × (0 + total size out ≤ max_event_page_payload_bytes)
      parts = IsPage-parts bytes size sized 0 _ out rest isp

      whole :
          pending f consumer c.cursor ≡ out ++ (rest ++ drop limit (pending f consumer c.cursor))
      whole =
          sym (take-drop limit _)
          ∙ ap (λ t. t ++ drop limit (pending f consumer c.cursor)) parts.0
          ∙ append_assoc out rest _

      behind_out :
          pending f consumer (last_sequence_of c.cursor out)
          ≡ rest ++ drop limit (pending f consumer c.cursor)
      behind_out =
          behind-last (λ e. subscribed f.subscriptions consumer e.session_id) c.cursor 0
            f.last_sequence f.events out _ ordered.rising whole

      advance :
          (n : ℕ)
          → limit ≡ n
          → (pending f consumer c.cursor ≡ [])
            ⊎ ((d : ClientEvent) × (ds : List ClientEvent) × (pending f consumer c.cursor ≡ d ∷ ds))
          → (limit ≡ 0)
            ⊎ (pending f consumer c.cursor ≡ [])
            ⊎ (c.cursor < last_sequence_of c.cursor out)
      advance zero no_limit pending_now = inl no_limit
      advance (suc n) some_limit (inl none_pending) = inr (inl none_pending)
      advance (suc n) some_limit (inr (d, ds, first)) =
          let (ys, taken) = take-ne-nil limit d ds (omega arith) in
          let page_of : IsPage bytes size sized 0 (d ∷ ys) out rest =
            subst (λ t. IsPage bytes size sized 0 t out rest) (ap (take limit) first ∙ taken) isp in
          let (more, led) =
            IsPage-some bytes size sized d ys out rest
              (subst (All (λ e. size e ≤ max_event_page_payload_bytes)) first pending-fits).0
              page_of in
          inr (
            inr (
              subst (λ o. c.cursor < last_sequence_of c.cursor o) (sym led)
                (lt-last (λ e. subscribed f.subscriptions consumer e.session_id) c.cursor 0
                  f.last_sequence f.events d more _ ordered.rising
                  (whole ∙ ap (λ o. o ++ (rest ++ drop limit (pending f consumer c.cursor))) led))))

  -- With the stored events in order and each of them small enough for a page, a poll of a known
  -- consumer succeeds. Its batch is within the byte limit of a page and within the limit of the
  -- call; the pending events are those of the batch followed by exactly those that are pending
  -- behind its checkpoint; and unless the limit is 0 or nothing is pending the checkpoint is ahead of
  -- the cursor.
  pub client_events_lem :
      (b : EventBatch) × ((client_events bytes consumer limit now f).0 ≡ ok b)
      × IsBatch size f consumer c.cursor limit b
  unfolding client_events batch_of
  client_events_lem =
      let (out, rest, made, isp) =
        page_lem bytes size sized false 0 (take limit (pending f consumer c.cursor)) (omega arith)
          (λ _. refl) (All-take _ limit _ pending-fits) in
      (batch_of out, rw (found, made, client_events), batch_of-IsBatch out rest isp)
