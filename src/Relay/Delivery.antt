-- ===== src/Relay/Delivery.antt =====
-- What a peer receives from the relay, after any events.
use mews.Prelude.{
  ℕ, ◌≡◌, refl, ap, sym, ◌∙◌, subst, Bool, true, Option, none, some, List, [], ◌∷◌, get_elem?, All,
  ◌++◌, Option-cases, Bool-cases, inl, inr,
}
use mews.Relay.Frame.{RelayIdentity, RelayFrame, validate_frame}
use mews.Relay.Router.{
  Mpsc, RouteKey, RelayConnection, RelayRouter, register, send, finish_receive, drop_connection,
  is_current,
}
use mews.Protocol.Values.{Time}
use mathlib.Core.List.{append_assoc}
use mews.Relay.Lists.{All-get_elem?}
use mews.Relay.Routed.{Genuine, IsRouted}
use mews.Relay.Routed.Calls.{
  new-IsRouted, register-IsRouted, send-IsRouted, finish_receive-IsRouted, drop_connection-IsRouted,
}

-- A registration, with its time and whether its signature verifies; and what connections do.
pub data Event : Type 0 where
  registers : Time → RelayIdentity → Bool → Event
  sends : ℕ → RelayFrame → Event
  receives drops : ℕ → Event

-- `is_enrolled` is the answer of the authenticator, which also reads the clock.
module _ (mpsc : Mpsc) (is_enrolled : Time → RelayIdentity → Bool) where
  sent_by : Option (RelayConnection mpsc) → RelayFrame → RelayRouter mpsc → RelayRouter mpsc
  sent_by none frame router = router
  sent_by (some c) frame router = (send mpsc c frame router).1

  unfoldable pub act : Event → RelayRouter mpsc → RelayRouter mpsc
  unfolding sent_by
  act (registers now identity proved) router =
      (register mpsc (is_enrolled now) (λ _. proved) identity router).1
  act (sends n frame) router = sent_by (get_elem? router.connections n) frame router
  act (receives n) router = (finish_receive mpsc n router).1
  act (drops n) router = drop_connection mpsc n router

  unfoldable pub acts : List Event → RelayRouter mpsc → RelayRouter mpsc
  unfolding act
  acts [] router = router
  acts (e ∷ es) router = acts es (act e router)

  -- RelayRouter::new
  abbrev pub new_router : ℕ → RelayRouter mpsc
  new_router capacity = record {
    queue_capacity = capacity;
    next_generation = 0;
    routes = [];
    connections = [];
  }

  acts-append :
      (xs ys : List Event) (router : RelayRouter mpsc)
      → acts (xs ++ ys) router ≡ acts ys (acts xs router)
  unfolding acts
  acts-append [] ys router = refl
  acts-append (e ∷ xs) ys router = acts-append xs ys (act e router)

  -- Among the events the identity has registered: its signature verified, and it was enrolled then.
  pub record IsRegistered (es : List Event) (identity : RelayIdentity) : Type 0 where
    pub before : List Event
    pub after : List Event
    pub now : Time
    pub listed : es ≡ before ++ registers now identity true ∷ after
    pub enrolled : is_enrolled now identity ≡ true

  -- Among the events connection `n`, which is under that identity, has sent the frame, and the relay
  -- has accepted it.
  pub record IsSent (capacity : ℕ) (es : List Event) (n : ℕ) (identity : RelayIdentity)
      (f : RelayFrame) : Type 0 where
    pub before : List Event
    pub after : List Event
    pub listed : es ≡ before ++ sends n f ∷ after
    pub sender : RelayConnection mpsc
    pub at : get_elem? (acts before (new_router capacity)).connections n ≡ some sender
    pub under : sender.identity ≡ identity
    pub accepted : (send mpsc sender f (acts before (new_router capacity))).0 ≡ none

  module _ (capacity : ℕ) (es : List Event) where
    abbrev Routed : RelayRouter mpsc → Type 0
    Routed = IsRouted mpsc (IsRegistered es) (IsSent capacity es)

    sent_by-IsRouted :
        (n : ℕ) (found : Option (RelayConnection mpsc)) (f : RelayFrame) (router : RelayRouter mpsc)
        → get_elem? router.connections n ≡ found
        → ((c : RelayConnection mpsc)
            → get_elem? router.connections n ≡ some c
            → (send mpsc c f router).0 ≡ none
            → IsSent capacity es n c.identity f)
        → Routed router
        → Routed (sent_by found f router)
    unfolding sent_by
    sent_by-IsRouted n none f router here said i = i
    sent_by-IsRouted n (some c) f router here said i =
        send-IsRouted mpsc (IsRegistered es) (IsSent capacity es) n c f router here (said c here) i

    act-IsRouted :
        (done : List Event) (e : Event) (todo : List Event)
        → es ≡ done ++ e ∷ todo
        → Routed (acts done (new_router capacity))
        → Routed (act e (acts done (new_router capacity)))
    unfolding act
    act-IsRouted done (registers now identity proved) todo listed i =
        register-IsRouted mpsc _ _ (is_enrolled now) (λ _. proved) identity _
          (λ enrolled verified. record {
            before = done;
            after = todo;
            now = now;
            listed = listed ∙ ap (λ b. done ++ registers now identity b ∷ todo) verified;
            enrolled = enrolled;
          })
          i
    act-IsRouted done (sends n f) todo listed i =
        sent_by-IsRouted n _ f (acts done (new_router capacity)) refl
          (λ c here accepted. record {
            before = done;
            after = todo;
            listed = listed;
            sender = c;
            at = here;
            under = refl;
            accepted = accepted;
          })
          i
    act-IsRouted done (receives n) todo listed i = finish_receive-IsRouted mpsc _ _ n _ i
    act-IsRouted done (drops n) todo listed i = drop_connection-IsRouted mpsc _ _ n _ i

    acts-IsRouted :
        (done todo : List Event)
        → es ≡ done ++ todo
        → Routed (acts done (new_router capacity))
        → Routed (acts todo (acts done (new_router capacity)))
    unfolding acts
    acts-IsRouted done [] listed i = i
    acts-IsRouted done (e ∷ todo) listed i =
        let one = acts-append done (e ∷ []) (new_router capacity) in
        subst (λ r. Routed (acts todo r)) one
          (acts-IsRouted (done ++ e ∷ []) todo (listed ∙ sym (append_assoc done (e ∷ []) todo))
            (subst Routed (sym one) (act-IsRouted done e todo listed i)))

  -- The frame comes from a connection that sent it under the name of its own peer, and goes to another
  -- of the same installation and authority; both are registered, and the frame is within the limits.
  pub record IsDelivery (capacity : ℕ) (es : List Event) (n : ℕ) (f : RelayFrame) : Type 0 where
    pub valid : validate_frame f ≡ none
    pub receiver : RelayConnection mpsc
    pub at : get_elem? (acts es (new_router capacity)).connections n ≡ some receiver
    pub receiver_registered : IsRegistered es receiver.identity
    pub destination : f.destination_id ≡ receiver.identity.peer_id
    pub installation : f.installation_id ≡ receiver.identity.installation_id
    pub place : ℕ
    pub sender : RelayIdentity
    pub sent : IsSent capacity es place sender f
    pub sender_registered : IsRegistered es sender
    pub source : f.source_id ≡ sender.peer_id
    pub same_installation : sender.installation_id ≡ receiver.identity.installation_id
    pub same_authority : sender.authority_public_key ≡ receiver.identity.authority_public_key

  module _ (capacity : ℕ) (es : List Event) where
    abbrev last_router : RelayRouter mpsc
    last_router = acts es (new_router capacity)

    abbrev Delivered : RouteKey → RelayFrame → Type 0
    Delivered = Genuine mpsc (IsRegistered es) (IsSent capacity es) last_router.connections

    Genuine-IsDelivery :
        (n : ℕ) (f : RelayFrame) (c : RelayConnection mpsc)
        → Routed capacity es last_router
        → get_elem? last_router.connections n ≡ some c
        → Delivered c.key f
        → IsDelivery capacity es n f
    Genuine-IsDelivery n f c i here g =
        let (registered, key) = All-get_elem? _ last_router.connections n c i.enrolled here in
        record {
          valid = g.valid;
          receiver = c;
          at = here;
          receiver_registered = registered;
          destination = g.destination ∙ ap (λ k. k.peer_id) key;
          installation = g.installation ∙ ap (λ k. k.installation_id) key;
          place = g.place;
          sender = g.sender.identity;
          sent = g.said;
          sender_registered =
              (All-get_elem? _ last_router.connections g.place g.sender i.enrolled g.connected).0;
          source = sym g.source;
          same_installation = g.of_installation ∙ ap (λ k. k.installation_id) key;
          same_authority = g.of_authority ∙ ap (λ k. k.authority_public_key) key;
        }

    finish_receive-IsDelivery :
        (n : ℕ) (f : RelayFrame)
        → Routed capacity es last_router
        → (finish_receive mpsc n last_router).0 ≡ some f
        → IsDelivery capacity es n f
    unfolding finish_receive
    finish_receive-IsDelivery n f i h = elim (Option-cases (get_elem? last_router.connections n)) [
      | inl missing ↦ let k : none ≡ some f = rw (missing, finish_receive) at h in absurd (cc)
      | inr (c, found) ↦ elim (Option-cases (mpsc.recv c.receiver)) [
        | inl empty ↦ let k : none ≡ some f = rw (found, empty, finish_receive) at h in absurd (cc)
        | inr ((g, channel), taken) ↦ elim (Bool-cases (is_current mpsc c last_router)) [
          | inr replaced ↦
              let k : none ≡ some f = rw (found, taken, replaced, finish_receive) at h in
              absurd (cc)
          | inl current ↦
              let k : some g ≡ some f = rw (found, taken, current, finish_receive) at h in
              let same : g ≡ f = cc in
              Genuine-IsDelivery n f c i found (
                subst (Delivered c.key) same
                  (subst (All (Delivered c.key)) (mpsc.waiting-recv g c.receiver channel taken)
                    (All-get_elem? _ last_router.connections n c i.frames found)).0)
        ]
      ]
    ]

  -- Whatever connections register, send, receive and drop, a frame that a connection receives is
  -- within the limits and names that connection's peer and installation; and a connection whose own
  -- peer is the frame's source, of the same installation and authority, sent it before, and the relay
  -- accepted it. The identities of both connections have registered, with a signature that verified,
  -- when they were enrolled.
  pub receive_lem :
      (capacity : ℕ) (es : List Event) (n : ℕ) (f : RelayFrame)
      (received : (finish_receive mpsc n (acts es (new_router capacity))).0 ≡ some f)
      → IsDelivery capacity es n f
  unfolding acts
  receive_lem capacity es n f received =
      finish_receive-IsDelivery capacity es n f
        (acts-IsRouted capacity es [] es refl (new-IsRouted mpsc _ _ capacity 0)) received
