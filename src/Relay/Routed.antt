-- ===== src/Relay/Routed.antt =====
-- crates/mews-relay/src/lib.rs: where frames wait, as an invariant of the router.
pub mod Calls
use text.Mathlib.TextEquality.{eq_iff}
use mews.Prelude.{
  ℕ, ◌≡◌, refl, ap, sym, ◌∙◌, subst, Bool, true, false, none, some, List, [], ◌∷◌, ◌++◌, get_elem?,
  All, All-append, All-keep, All-imp, find-some, Bool-cases, Option-cases, inl, inr, arith,
  if_cases,
}
use mews.Relay.Frame.{RelayIdentity, RelayFrame, validate_frame}
use mews.Relay.Router.{
  Mpsc, Sent, sent, full, closed, RouteKey, same_key, Route, key_of, route_of, remove_route,
  RelayConnection, RelayRouter, connect, register, is_current, with_receiver, put, delivered,
  destination, forward, foreign, dispatch, send, finish_receive, drop_connection,
}
use mews.Relay.Lists.{Extends, Extends-update_at, Extends-append, get_elem?-last, All-update_at}

-- `Known` tells which identities may connect, and `Said` of a frame which connection sent it, under
-- which identity.
module _ (mpsc : Mpsc) (Known : RelayIdentity → Type 0)
    (Said : ℕ → RelayIdentity → RelayFrame → Type 0) where
  -- Two states of one connection.
  pub record Same (c d : RelayConnection mpsc) : Type 0 where
    pub identity : d.identity ≡ c.identity
    pub key : d.key ≡ c.key
    pub generation : d.generation ≡ c.generation

  abbrev pub Connections : Type 0
  Connections = List (RelayConnection mpsc)

  -- A valid frame for the peer of a key, which a connected peer sent in its own name, in the key's
  -- installation and under its authority.
  pub record Genuine (cs : Connections) (key : RouteKey) (f : RelayFrame) : Type 0 where
    pub valid : validate_frame f ≡ none
    pub installation : f.installation_id ≡ key.installation_id
    pub destination : f.destination_id ≡ key.peer_id
    pub place : ℕ
    pub sender : RelayConnection mpsc
    pub connected : get_elem? cs place ≡ some sender
    pub said : Said place sender.identity f
    pub source : sender.identity.peer_id ≡ f.source_id
    pub of_installation : sender.identity.installation_id ≡ key.installation_id
    pub of_authority : sender.identity.authority_public_key ≡ key.authority_public_key

  abbrev pub RouteOk : Connections → Route → Type 0
  RouteOk cs r =
      (c : RelayConnection mpsc) × (get_elem? cs r.sender ≡ some c)
      × (c.key ≡ r.key)
      × (c.generation ≡ r.generation)

  pub record IsRouted (router : RelayRouter mpsc) : Type 0 where
    pub routes : All (RouteOk router.connections) router.routes
    pub enrolled : All (λ c. Known c.identity × (c.key ≡ key_of c.identity)) router.connections
    pub frames :
        All
          (λ c. All (Genuine router.connections c.key) (mpsc.waiting c.receiver))
          router.connections

  pub Same-refl : (c : RelayConnection mpsc) → Same c c
  Same-refl c = record { identity = refl; key = refl; generation = refl }

  Same-with_receiver :
      (channel : mpsc.Channel) (c : RelayConnection mpsc) → Same c (with_receiver mpsc channel c)
  Same-with_receiver channel c = record { identity = refl; key = refl; generation = refl }

  pub Genuine-Extends :
      (xs ys : Connections)
      → Extends Same xs ys
      → (key : RouteKey) (f : RelayFrame) → Genuine xs key f
      → Genuine ys key f
  Genuine-Extends xs ys e key f g =
      let (d, found, same) = e.at g.place g.sender g.connected in
      record {
        valid = g.valid;
        installation = g.installation;
        destination = g.destination;
        place = g.place;
        sender = d;
        connected = found;
        said = subst (λ i. Said g.place i f) (sym same.identity) g.said;
        source = ap (λ i. i.peer_id) same.identity ∙ g.source;
        of_installation = ap (λ i. i.installation_id) same.identity ∙ g.of_installation;
        of_authority = ap (λ i. i.authority_public_key) same.identity ∙ g.of_authority;
      }

  pub RouteOk-Extends :
      (xs ys : Connections) → Extends Same xs ys → (r : Route) → RouteOk xs r → RouteOk ys r
  RouteOk-Extends xs ys e r (c, found, key, generation) =
      let (d, found', same) = e.at r.sender c found in
      (d, found', same.key ∙ key, same.generation ∙ generation)

  -- New frames in the channel of one connection.
  pub put-IsRouted :
      (n : ℕ) (channel : mpsc.Channel) (router : RelayRouter mpsc)
      → ((c : RelayConnection mpsc)
          → get_elem? router.connections n ≡ some c
          → All (Genuine router.connections c.key) (mpsc.waiting c.receiver)
          → All (Genuine router.connections c.key) (mpsc.waiting channel))
      → IsRouted router
      → IsRouted (put mpsc n channel router)
  unfolding put
  put-IsRouted n channel router h i =
      let step =
        Extends-update_at Same Same-refl (with_receiver mpsc channel) (Same-with_receiver channel) n
          router.connections in
      record {
        routes = All-imp _ _ router.routes i.routes (RouteOk-Extends _ _ step);
        enrolled = All-update_at _ _ n router.connections (λ c found k. k) i.enrolled;
        frames =
            All-imp _ _ _
              (All-update_at (λ c. All (Genuine router.connections c.key) (mpsc.waiting c.receiver))
                (with_receiver mpsc channel) n router.connections h i.frames)
              (λ c k. All-imp _ _ _ k (Genuine-Extends _ _ step c.key));
      }
