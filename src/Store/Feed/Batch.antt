-- ===== src/Store/Feed/Batch.antt =====
-- What a poll returns: a page of the pending events, and the checkpoint behind it.
pub mod Resume
pub mod Laws
pub mod Limit
use mathlib.Core.List.{append-nil}
use mews.Prelude.{
  ℕ, suc, zero, ◌+◌, ◌<◌, ◌≤◌, ◌≡◌, ◌≢◌, refl, ap, sym, ◌∙◌, Bool, true, false, not, Option, none,
  some, List, [], ◌∷◌, ◌++◌, All, keep, take, drop, length, map, if_cases, Bool-cases, inl, inr,
  arith, ltb, leb, ltb→lt, ltb→le, if◌then◌else◌, ◌&&◌,
}
use mews.Protocol.Values.{Uid, Time}
use mews.Protocol.Events.Client.{ClientEvent, EventBatch}
use mews.Store.Result.{Result, ok, err, ◌>>=◌, ok_or, not_found, Kind}
use mews.Store.Feed.{
  Feed, EventRow, Consumer, subscribed, find_consumer, pending, page, last_sequence_of,
  client_events, max_event_page_payload_bytes,
}
use mews.Store.Feed.Order.{Within, IsOrdered}

module _ (size : ClientEvent → ℕ) where
  unfoldable pub total : List ClientEvent → ℕ
  total [] = 0
  total (e ∷ es) = size e + total es

module _ (bytes : ClientEvent → Option ℕ) (size : ClientEvent → ℕ)
    (sized : (e : ClientEvent) → bytes e ≡ some (size e)) where
  -- The page is a prefix that fits, and it stops only before an event that does not.
  abbrev pub IsPage : ℕ → List ClientEvent → List ClientEvent → List ClientEvent → Type 0
  IsPage payload es out [] = (es ≡ out) × (payload + total size out ≤ max_event_page_payload_bytes)
  IsPage payload es out (e ∷ rest) =
      (es ≡ out ++ e ∷ rest)
      × (payload + total size out ≤ max_event_page_payload_bytes)
      × (max_event_page_payload_bytes < payload + total size out + size e)

  pub page_lem :
      (started : Bool) (payload : ℕ) (es : List ClientEvent)
      → payload ≤ max_event_page_payload_bytes
      → (started ≡ false → payload ≡ 0)
      → All (λ e. size e ≤ max_event_page_payload_bytes) es
      → (out rest : List ClientEvent) × (page bytes started payload es ≡ ok out)
        × IsPage payload es out rest
  unfolding page total
  page_lem started payload [] h z fit = ([], [], refl, (refl, omega arith))
  page_lem started payload (e ∷ es) h z fit =
      elim (Bool-cases (started && ltb max_event_page_payload_bytes (payload + size e))) [
        | inl full ↦ ([], e ∷ es, rw (sized e, large, full), (refl, omega arith, over full))
        | inr room ↦
            let (out, rest, made, isp) =
              page_lem true (payload + size e) es (fits room) (λ s. absurd (cc)) fit.1 in
            (e ∷ out, rest, rw (sized e, large, room, made), longer out rest isp)
      ]
    where
      large : ltb max_event_page_payload_bytes (size e) ≡ false
      large = ground (arith, fit.0)

      over :
          (started && ltb max_event_page_payload_bytes (payload + size e)) ≡ true
          → max_event_page_payload_bytes < payload + 0 + size e
      over full = ground arith

      fits :
          (started && ltb max_event_page_payload_bytes (payload + size e)) ≡ false
          → payload + size e ≤ max_event_page_payload_bytes
      fits room = ground (arith, z, fit.0)

      longer :
          (out rest : List ClientEvent)
          → IsPage (payload + size e) es out rest
          → IsPage payload (e ∷ es) (e ∷ out) rest
      longer out [] p = (ap (◌∷◌ e) p.0, omega (arith, p.1))
      longer out (d ∷ rest) p = (ap (◌∷◌ e) p.0, omega (arith, p.1), omega (arith, p.2))

  pub IsPage-parts :
      (payload : ℕ) (es out rest : List ClientEvent)
      → IsPage payload es out rest
      → (es ≡ out ++ rest) × (payload + total size out ≤ max_event_page_payload_bytes)
  IsPage-parts payload es out [] p = (p.0 ∙ sym (append-nil out), p.1)
  IsPage-parts payload es out (e ∷ rest) p = (p.0, p.1)

  -- A page of events that fit one by one is not empty.
  pub IsPage-some :
      (e : ClientEvent) (es out rest : List ClientEvent)
      → size e ≤ max_event_page_payload_bytes
      → IsPage 0 (e ∷ es) out rest
      → (more : List ClientEvent) × (out ≡ e ∷ more)
  unfolding total
  IsPage-some e es [] [] h p = absurd (cc (p.0))
  IsPage-some e es [] (d ∷ rest) h p =
      let same : e ≡ d = cc (p.0) in absurd (omega (arith, p.2, ap size same))
  IsPage-some e es (d ∷ out) [] h p = (out, cc (p.0))
  IsPage-some e es (d ∷ out) (c ∷ rest) h p = (out, cc (p.0))
