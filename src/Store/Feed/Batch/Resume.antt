-- ===== src/Store/Feed/Batch/Resume.antt =====
-- Where the pending events go on after a checkpoint.
use mews.Prelude.{
  ℕ, ◌<◌, ◌≤◌, ◌≡◌, refl, ap, ◌∙◌, Bool, false, List, [], ◌∷◌, ◌++◌, keep, map, Bool-cases, inl,
  inr, arith, ltb, ◌&&◌,
}
use mews.Protocol.Events.Client.{ClientEvent}
use mews.Store.Feed.{EventRow, last_sequence_of}
use mews.Store.Feed.Order.{Within}

-- The events of the rows that pass a test and lie behind a cursor.
module _ (p : EventRow → Bool) where
  abbrev pub behind : ℕ → List EventRow → List ClientEvent
  behind cursor rows = map (λ e. e.event) (keep (λ e. p e && ltb cursor e.sequence) rows)

  behind-eq :
      (a b lo hi : ℕ) (rows : List EventRow)
      → a ≤ lo
      → b ≤ lo
      → Within lo hi rows
      → behind a rows ≡ behind b rows
  unfolding keep
  behind-eq a b lo hi [] h k w = refl
  behind-eq a b lo hi (e ∷ rows) h k w =
      ground (arith, behind-eq a b e.sequence hi rows (omega arith) (omega arith) w.1)

  behind-head-lt :
      (cursor : ℕ) (rows : List EventRow) {d : ClientEvent} {rest : List ClientEvent}
      → behind cursor rows ≡ d ∷ rest
      → cursor < d.sequence
  unfolding keep
  behind-head-lt cursor [] h = absurd (cc)
  behind-head-lt cursor (e ∷ rows) {d} {rest} h =
      ground (arith, behind-head-lt cursor rows {d = d} {rest = rest})

  -- Behind the first of them are the others.
  behind-tail :
      (cursor lo hi : ℕ) (rows : List EventRow) {d : ClientEvent} {rest : List ClientEvent}
      → Within lo hi rows
      → behind cursor rows ≡ d ∷ rest
      → behind d.sequence rows ≡ rest
  unfolding keep
  behind-tail cursor lo hi [] w h = absurd (cc)
  behind-tail cursor lo hi (e ∷ rows) {d} {rest} w h =
      elim (Bool-cases (p e && ltb cursor e.sequence)) [
        | inl kept ↦
            let whole : e.event ∷ behind cursor rows ≡ d ∷ rest = rw kept at h in
            let first : e.event ≡ d = cc whole in
            let others : behind cursor rows ≡ rest = cc whole in
            let seq : e.sequence ≡ d.sequence = ap (λ (x : ClientEvent). x.sequence) first in
            let low : cursor ≤ e.sequence = ground arith in
            let gone : (p e && ltb d.sequence e.sequence) ≡ false = ground (arith, seq) in
            rw gone
              (behind-eq d.sequence cursor e.sequence hi rows (omega (arith, seq)) low w.1 ∙ others)
        | inr skipped ↦
            let whole : behind cursor rows ≡ d ∷ rest = rw skipped at h in
            let later = behind-head-lt cursor rows whole in
            let gone : (p e && ltb d.sequence e.sequence) ≡ false = ground arith in
            rw gone (behind-tail cursor e.sequence hi rows w.1 whole)
      ]

  -- Behind the last of a prefix is what follows the prefix.
  pub behind-last :
      (cursor lo hi : ℕ) (rows : List EventRow) (out rest : List ClientEvent)
      → Within lo hi rows
      → behind cursor rows ≡ out ++ rest
      → behind (last_sequence_of cursor out) rows ≡ rest
  unfolding last_sequence_of
  behind-last cursor lo hi rows [] rest w h = h
  behind-last cursor lo hi rows (d ∷ out) rest w h =
      behind-last d.sequence lo hi rows out rest w (behind-tail cursor lo hi rows w h)

  pub last-le :
      (cursor lo hi : ℕ) (rows : List EventRow) (out rest : List ClientEvent)
      → Within lo hi rows
      → behind cursor rows ≡ out ++ rest
      → cursor ≤ last_sequence_of cursor out
  unfolding last_sequence_of
  last-le cursor lo hi rows [] rest w h = omega arith
  last-le cursor lo hi rows (d ∷ out) rest w h = omega (
    arith,
    behind-head-lt cursor rows h,
    last-le d.sequence lo hi rows out rest w (behind-tail cursor lo hi rows w h),
  )

  pub lt-last :
      (cursor lo hi : ℕ) (rows : List EventRow) (d : ClientEvent) (out rest : List ClientEvent)
      → Within lo hi rows
      → behind cursor rows ≡ d ∷ out ++ rest
      → cursor < last_sequence_of cursor (d ∷ out)
  unfolding last_sequence_of
  lt-last cursor lo hi rows d out rest w h = omega (
    arith,
    behind-head-lt cursor rows h,
    last-le d.sequence lo hi rows out rest w (behind-tail cursor lo hi rows w h),
  )
