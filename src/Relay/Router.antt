-- ===== src/Relay/Router.antt =====
-- crates/mews-relay/src/lib.rs: RelayRouter and RelayConnection. Connections stand in a list and are
-- told by their place in it; a dropped connection stays there with its channel closed.
use text.Mathlib.Text.{◌==◌ as str_eq}
use mews.Prelude.{
  ℕ, zero, suc, ◌+◌, ◌%◌, ◌≡◌, ◌==◌, String, Bool, false, not, ◌||◌, ◌&&◌, Option, none, some, List,
  [], ◌∷◌, ◌++◌, length, get_elem?, find, keep, if◌then◌else◌, u64_mod,
}
use mews.Protocol.Values.{Uid}
use mews.Relay.Frame.{
  RelayError, unauthorized, invalid_signature, connection_replaced, destination_offline,
  destination_busy, source_mismatch, RelayIdentity, RelayFrame, validate_frame,
}

pub data Sent (Channel : Type 0) : Type 0 where
  sent : Channel → Sent Channel
  full closed : Sent Channel

-- tokio's bounded channel, with the frames that wait in it.
pub record Mpsc : Type 1 where
  pub Channel : Type 0
  pub channel : ℕ → Channel
  pub try_send : RelayFrame → Channel → Sent Channel
  pub recv : Channel → Option (RelayFrame × Channel)
  pub close : Channel → Channel
  pub waiting : Channel → List RelayFrame
  pub waiting-channel : (n : ℕ) → waiting (channel n) ≡ []
  pub waiting-try_send :
      (f : RelayFrame) (c d : Channel) → try_send f c ≡ sent d → waiting d ≡ waiting c ++ f ∷ []
  pub waiting-recv :
      (f : RelayFrame) (c d : Channel) → recv c ≡ some (f, d) → waiting c ≡ f ∷ waiting d
  pub waiting-close : (c : Channel) → waiting (close c) ≡ waiting c

pub record RouteKey : Type 0 where
  pub installation_id : Uid
  pub authority_public_key : String
  pub peer_id : String

unfoldable pub same_key : RouteKey → RouteKey → Bool
same_key a b =
    a.installation_id == b.installation_id
    && str_eq a.authority_public_key b.authority_public_key
    && str_eq a.peer_id b.peer_id

-- The sender of a route is the connection that holds the receiver.
pub record Route : Type 0 where
  pub key : RouteKey
  pub generation : ℕ
  pub sender : ℕ

abbrev pub key_of : RelayIdentity → RouteKey
key_of i = record {
  installation_id = i.installation_id;
  authority_public_key = i.authority_public_key;
  peer_id = i.peer_id;
}

unfoldable pub route_of : RouteKey → List Route → Option Route
route_of key = find (λ r. same_key r.key key)

unfoldable pub remove_route : RouteKey → List Route → List Route
remove_route key = keep (λ r. not (same_key r.key key))

unfoldable pub update_at {ℓ} : {A : Type ℓ} → ℕ → (A → A) → List A → List A
update_at n f [] = []
update_at zero f (x ∷ xs) = f x ∷ xs
update_at (suc n) f (x ∷ xs) = x ∷ update_at n f xs

module _ (mpsc : Mpsc) where
  pub record RelayConnection : Type 0 where
    pub identity : RelayIdentity
    pub key : RouteKey
    pub generation : ℕ
    pub receiver : mpsc.Channel

  pub record RelayRouter : Type 0 where
    pub queue_capacity : ℕ
    pub next_generation : ℕ
    pub routes : List Route
    pub connections : List RelayConnection

  -- The rest of `register`, once the peer is known: the connection stands at the end of the list.
  unfoldable pub connect : RelayIdentity → RelayRouter → RelayRouter
  unfolding remove_route
  connect identity router =
      let generation = (router.next_generation + 1) % u64_mod in
      record router {
        next_generation = generation;
        routes =
            record {
              key = key_of identity;
              generation = generation;
              sender = length router.connections;
            }
            ∷ remove_route (key_of identity) router.routes;
        connections =
            router.connections
            ++ record {
              identity = identity;
              key = key_of identity;
              generation = generation;
              receiver = mpsc.channel router.queue_capacity;
            }
              ∷ [];
      }

  -- RelayRouter::register: the answer, and the router it leaves. `is_enrolled` is the
  -- authenticator's answer, and `proves` that of the verification of the signature of the challenge.
  unfoldable pub register :
      (RelayIdentity → Bool)
      → (RelayIdentity → Bool)
      → RelayIdentity
      → RelayRouter
      → Option RelayError × RelayRouter
  unfolding connect
  register is_enrolled proves identity router =
      if not (is_enrolled identity)
      then (some unauthorized, router)
      else if not (proves identity)
      then (some invalid_signature, router)
      else (none, connect identity router)

  -- The connection's own route is the one that is registered.
  unfoldable pub is_current : RelayConnection → RelayRouter → Bool
  unfolding route_of
  is_current c router = elim (route_of c.key router.routes) [
    | none ↦ false
    | some route ↦ route.generation == c.generation
  ]

  abbrev pub with_receiver : mpsc.Channel → RelayConnection → RelayConnection
  with_receiver channel c = record c { receiver = channel }

  unfoldable pub put : ℕ → mpsc.Channel → RelayRouter → RelayRouter
  unfolding update_at
  put n channel router = record router {
    connections = update_at n (with_receiver channel) router.connections;
  }

  -- What an attempt to send to connection `n` leaves.
  unfoldable pub delivered : ℕ → Sent mpsc.Channel → RelayRouter → Option RelayError × RelayRouter
  unfolding put
  delivered n (sent channel) router = (none, put n channel router)
  delivered n full router = (some destination_busy, router)
  delivered n closed router = (some destination_offline, router)

  -- `route.sender.try_send(frame)`
  unfoldable pub forward : RelayFrame → Route → RelayRouter → Option RelayError × RelayRouter
  unfolding delivered
  forward frame route router = elim (get_elem? router.connections route.sender) [
    | none ↦ (some destination_offline, router)
    | some c ↦ delivered route.sender (mpsc.try_send frame c.receiver) router
  ]

  -- The route from a connection to the peer that a frame names.
  abbrev pub destination : RelayConnection → RelayFrame → RouteKey
  destination c frame = record {
    installation_id = frame.installation_id;
    authority_public_key = c.identity.authority_public_key;
    peer_id = frame.destination_id;
  }

  -- The frame does not come from the connection's own peer.
  unfoldable pub foreign : RelayConnection → RelayFrame → Bool
  foreign c frame =
      not (frame.installation_id == c.identity.installation_id)
      || not (str_eq frame.source_id c.identity.peer_id)

  unfoldable pub dispatch :
      RelayConnection → RelayFrame → RelayRouter → Option RelayError × RelayRouter
  unfolding forward route_of
  dispatch c frame router = elim (route_of (destination c frame) router.routes) [
    | none ↦ (some destination_offline, router)
    | some route ↦ forward frame route router
  ]

  -- RelayConnection::send, while the router lives.
  unfoldable pub send : RelayConnection → RelayFrame → RelayRouter → Option RelayError × RelayRouter
  unfolding is_current foreign dispatch
  send c frame router = elim (validate_frame frame) [
    | some e ↦ (some e, router)
    | none ↦
        if foreign c frame
        then (some source_mismatch, router)
        else if not (is_current c router)
        then (some connection_replaced, router)
        else dispatch c frame router
  ]

  -- RelayConnection::receive, from the first test to the await.
  unfoldable pub begin_receive : RelayConnection → RelayRouter → Bool
  begin_receive c router = is_current c router

  -- RelayConnection::receive of connection `n`, from a frame that has come to the second test.
  unfoldable pub finish_receive : ℕ → RelayRouter → Option RelayFrame × RelayRouter
  unfolding is_current put
  finish_receive n router = elim (get_elem? router.connections n) [
    | none ↦ (none, router)
    | some c ↦ elim (mpsc.recv c.receiver) [
      | none ↦ (none, router)
      | some p ↦ (if is_current c router then some p.0 else none, put n p.1 router)
    ]
  ]

  -- Drop for RelayConnection of connection `n`.
  unfoldable pub drop_connection : ℕ → RelayRouter → RelayRouter
  unfolding is_current put remove_route
  drop_connection n router = elim (get_elem? router.connections n) [
    | none ↦ router
    | some c ↦
        let closed_router = put n (mpsc.close c.receiver) router in
        if is_current c router
        then record closed_router { routes = remove_route c.key router.routes }
        else closed_router
  ]
