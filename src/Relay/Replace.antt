-- ===== src/Relay/Replace.antt =====
-- crates/mews-relay/src/lib.rs: a registration of a peer that has an older connection.
use text.Mathlib.TextEquality.{eq_iff}
use mews.Prelude.{
  ℕ, ◌+◌, ◌%◌, ◌<◌, ◌≤◌, ◌≡◌, refl, ap, sym, ◌∙◌, subst, Bool, true, false, none, some, List, ◌∷◌,
  length, get_elem?, find, ◌==◌, ==_refl, arith, u64_mod, Option-cases, Bool-cases, inl, inr,
}
use mews.Relay.Frame.{
  connection_replaced, unauthorized, invalid_signature, RelayIdentity, RelayFrame, validate_frame,
}
use mews.Relay.Router.{
  Mpsc, RouteKey, same_key, Route, key_of, route_of, remove_route, RelayConnection, RelayRouter,
  connect, register, is_current, foreign, put, send, finish_receive, drop_connection,
}
use mews.Relay.Lists.{get_elem?-last, get_elem?-append}

same_key_refl : (k : RouteKey) → same_key k k ≡ true
unfolding same_key
same_key_refl k = ground (
  arith,
  (eq_iff k.authority_public_key k.authority_public_key).1 refl,
  (eq_iff k.peer_id k.peer_id).1 refl,
)

route_of-head : (r : Route) (rs : List Route) → route_of r.key (r ∷ rs) ≡ some r
unfolding route_of find
route_of-head r rs = rw (same_key_refl r.key) refl

module _ (mpsc : Mpsc) (identity : RelayIdentity) (router : RelayRouter mpsc) where
  new_generation : ℕ
  new_generation = (router.next_generation + 1) % u64_mod

  -- After a registration only the connection of the new generation is current under its key.
  is_current-connect :
      (c : RelayConnection mpsc)
      → c.key ≡ key_of identity
      → is_current mpsc c (connect mpsc identity router) ≡ (new_generation == c.generation)
  unfolding is_current connect new_generation
  is_current-connect c same =
      rw
        (
          same,
          route_of-head
              (record {
                key = key_of identity;
                generation = (router.next_generation + 1) % u64_mod;
                sender = length router.connections;
              })
              (remove_route (key_of identity) router.routes),
          is_current,
        )
        refl

  -- What becomes of connection `n`, once another connection of its peer is registered.
  pub record IsReplaced (n : ℕ) (c : RelayConnection mpsc) (f : RelayFrame)
      (after : RelayRouter mpsc) : Type 0 where
    pub sending : send mpsc c f after ≡ (some connection_replaced, after)
    pub receiving : (finish_receive mpsc n after).0 ≡ none
    pub dropping : (drop_connection mpsc n after).routes ≡ after.routes

  stale-IsReplaced :
      (n : ℕ) (c : RelayConnection mpsc) (f : RelayFrame) (after : RelayRouter mpsc)
      → get_elem? after.connections n ≡ some c
      → is_current mpsc c after ≡ false
      → validate_frame f ≡ none
      → foreign mpsc c f ≡ false
      → IsReplaced n c f after
  unfolding send finish_receive drop_connection put
  stale-IsReplaced n c f after here stale valid own = record {
    sending = rw (valid, own, stale, send) refl;
    receiving = elim (Option-cases (mpsc.recv c.receiver)) [
      | inl empty ↦ rw (here, empty, finish_receive) refl
      | inr (p, taken) ↦ rw (here, taken, stale, finish_receive) refl
    ];
    dropping = rw (here, stale, drop_connection) refl;
  }

  register-connect :
      (is_enrolled proves : RelayIdentity → Bool) (after : RelayRouter mpsc)
      → register mpsc is_enrolled proves identity router ≡ (none, after)
      → after ≡ connect mpsc identity router
  unfolding register
  register-connect is_enrolled proves after done = elim (Bool-cases (is_enrolled identity)) [
    | inr unknown ↦
        let k : some unauthorized ≡ none = ap (λ t. t.0) (rw (unknown, register) at done) in
        absurd (cc)
    | inl enrolled ↦ elim (Bool-cases (proves identity)) [
      | inr forged ↦
          let k : some invalid_signature ≡ none =
            ap (λ t. t.0) (rw (enrolled, forged, register) at done) in
          absurd (cc)
      | inl proved ↦ sym (ap (λ t. t.1) (rw (enrolled, proved, register) at done))
    ]
  ]

  connect-keeps :
      (n : ℕ) (c : RelayConnection mpsc)
      → get_elem? router.connections n ≡ some c
      → get_elem? (connect mpsc identity router).connections n ≡ some c
  unfolding connect
  connect-keeps n c h = get_elem?-append router.connections _ n c h

  old-stale :
      (old : RelayConnection mpsc)
      → old.key ≡ key_of identity
      → old.generation ≤ router.next_generation
      → router.next_generation + 1 < u64_mod
      → is_current mpsc old (connect mpsc identity router) ≡ false
  unfolding new_generation
  old-stale old same older small = is_current-connect old same ∙ ground arith

  new_connection :
      (c : RelayConnection mpsc) × (get_elem?
          (connect mpsc identity router).connections
          (length router.connections)
        ≡ some c)
      × (c.identity ≡ identity)
      × (is_current mpsc c (connect mpsc identity router) ≡ true)
  unfolding connect new_generation
  new_connection =
      (_, get_elem?-last router.connections _, refl, is_current-connect _ refl ∙ ==_refl _)

  -- Once a peer registers anew, the connection that it had before is replaced, unless the 64-bit
  -- generation wraps around: its own valid frames are refused with that reason, it receives nothing
  -- more, and dropping it leaves the new route in place. The new connection is current.
  pub register_lem :
      (is_enrolled proves : RelayIdentity → Bool) (after : RelayRouter mpsc)
      (done : register mpsc is_enrolled proves identity router ≡ (none, after)) (n : ℕ)
      (old : RelayConnection mpsc) (f : RelayFrame)
      (here : get_elem? router.connections n ≡ some old) (same : old.key ≡ key_of identity)
      (older : old.generation ≤ router.next_generation)
      (small : router.next_generation + 1 < u64_mod) (valid : validate_frame f ≡ none)
      (own : foreign mpsc old f ≡ false)
      → IsReplaced n old f after
        × ((c : RelayConnection mpsc) × (get_elem? after.connections (length router.connections)
              ≡ some c)
            × (c.identity ≡ identity)
            × (is_current mpsc c after ≡ true))
  register_lem is_enrolled proves after done n old f here same older small valid own =
      let connected = register-connect is_enrolled proves after done in
      subst
        (λ w.
          IsReplaced n old f w
          × ((c : RelayConnection mpsc) × (get_elem? w.connections (length router.connections)
                ≡ some c)
              × (c.identity ≡ identity)
              × (is_current mpsc c w ≡ true)))
        (sym connected)
        (
          stale-IsReplaced n old f (connect mpsc identity router) (connect-keeps n old here)
              (old-stale old same older small) valid own,
          new_connection,
        )
