-- ===== src/Relay/Routed/Calls.antt =====
-- crates/mews-relay/src/lib.rs: the invariant across each call.
use text.Mathlib.TextEquality.{eq_iff}
use mews.Prelude.{
  ℕ, ◌≡◌, refl, ap, sym, ◌∙◌, subst, Bool, true, false, none, some, [], ◌∷◌, ◌++◌, get_elem?, All,
  All-append, All-keep, All-imp, find-some, Bool-cases, Option-cases, inl, inr, arith, if_cases,
}
use mews.Relay.Frame.{RelayIdentity, RelayFrame, validate_frame}
use mews.Relay.Router.{
  Mpsc, Sent, sent, full, closed, RouteKey, same_key, Route, key_of, route_of, remove_route,
  RelayConnection, RelayRouter, connect, register, is_current, put, delivered, destination, forward,
  foreign, dispatch, send, finish_receive, drop_connection,
}
use mews.Relay.Lists.{Extends-append, get_elem?-last}
use mews.Relay.Routed.{
  Same, Genuine, RouteOk, IsRouted, Same-refl, Genuine-Extends, RouteOk-Extends, put-IsRouted,
}

same_key_lem :
    (a b : RouteKey)
    → same_key a b ≡ true
    → (a.installation_id ≡ b.installation_id)
      × (a.authority_public_key ≡ b.authority_public_key)
      × (a.peer_id ≡ b.peer_id)
unfolding same_key
same_key_lem a b h =
    ground (arith, eq_iff a.authority_public_key b.authority_public_key, eq_iff a.peer_id b.peer_id)

module _ (mpsc : Mpsc) (Known : RelayIdentity → Type 0)
    (Said : ℕ → RelayIdentity → RelayFrame → Type 0) where
  pub new-IsRouted :
      (capacity generation : ℕ)
      → IsRouted mpsc Known Said (record {
        queue_capacity = capacity;
        next_generation = generation;
        routes = [];
        connections = [];
      })
  new-IsRouted capacity generation = record { routes = tt; enrolled = tt; frames = tt }

  remove_route-IsRouted :
      (key : RouteKey) (router : RelayRouter mpsc)
      → IsRouted mpsc Known Said router
      → IsRouted mpsc Known Said (record router { routes = remove_route key router.routes })
  unfolding remove_route
  remove_route-IsRouted key router i = record {
    routes = All-keep _ _ router.routes i.routes;
    enrolled = i.enrolled;
    frames = i.frames;
  }

  pub drop_connection-IsRouted :
      (n : ℕ) (router : RelayRouter mpsc)
      → IsRouted mpsc Known Said router
      → IsRouted mpsc Known Said (drop_connection mpsc n router)
  unfolding drop_connection
  drop_connection-IsRouted n router i = elim (Option-cases (get_elem? router.connections n)) [
    | inl missing ↦ rw (missing, drop_connection) i
    | inr (c, found) ↦
        let kept : IsRouted mpsc Known Said (put mpsc n (mpsc.close c.receiver) router) =
          put-IsRouted mpsc Known Said n (mpsc.close c.receiver) router
            (λ d here k.
              let same : c ≡ d = cc in
              subst (All (Genuine mpsc Known Said router.connections d.key))
                (ap (λ t. mpsc.waiting t.receiver) (sym same) ∙ sym (mpsc.waiting-close c.receiver))
                k)
            i in
        rw (found, drop_connection)
          (if_cases (IsRouted mpsc Known Said) (is_current mpsc c router) _ _
            (λ current. remove_route-IsRouted c.key _ kept) (λ other. kept))
  ]

  pub finish_receive-IsRouted :
      (n : ℕ) (router : RelayRouter mpsc)
      → IsRouted mpsc Known Said router
      → IsRouted mpsc Known Said (finish_receive mpsc n router).1
  unfolding finish_receive
  finish_receive-IsRouted n router i = elim (Option-cases (get_elem? router.connections n)) [
    | inl missing ↦ rw (missing, finish_receive) i
    | inr (c, found) ↦ elim (Option-cases (mpsc.recv c.receiver)) [
      | inl empty ↦ rw (found, empty, finish_receive) i
      | inr ((f, channel), taken) ↦
          rw (found, taken, finish_receive)
            (put-IsRouted mpsc Known Said n channel router
              (λ d here k.
                let same : c ≡ d = cc in
                (subst (All (Genuine mpsc Known Said router.connections d.key))
                  (ap (λ t. mpsc.waiting t.receiver) (sym same)
                    ∙ mpsc.waiting-recv f c.receiver channel taken)
                  k).1)
              i)
    ]
  ]

  delivered-IsRouted :
      (n : ℕ) (s : Sent mpsc.Channel) (router : RelayRouter mpsc)
      → ((channel : mpsc.Channel)
          → s ≡ sent channel
          → IsRouted mpsc Known Said (put mpsc n channel router))
      → IsRouted mpsc Known Said router
      → IsRouted mpsc Known Said (delivered mpsc n s router).1
  unfolding delivered
  delivered-IsRouted n (sent channel) router h i = h channel refl
  delivered-IsRouted n full router h i = i
  delivered-IsRouted n closed router h i = i

  forward-IsRouted :
      (f : RelayFrame) (route : Route) (router : RelayRouter mpsc)
      → RouteOk mpsc Known Said router.connections route
      → ((forward mpsc f route router).0 ≡ none
          → Genuine mpsc Known Said router.connections route.key f)
      → IsRouted mpsc Known Said router
      → IsRouted mpsc Known Said (forward mpsc f route router).1
  unfolding forward delivered
  forward-IsRouted f route router (c, found, key, generation) genuine i =
      rw (found, forward)
        (delivered-IsRouted route.sender (mpsc.try_send f c.receiver) router
          (λ channel went.
            put-IsRouted mpsc Known Said route.sender channel router
              (λ d here k.
                let same : c ≡ d = cc in
                subst (All (Genuine mpsc Known Said router.connections d.key))
                  (sym (
                    mpsc.waiting-try_send f c.receiver channel went
                    ∙ ap (λ t. mpsc.waiting t.receiver ++ f ∷ []) same))
                  (All-append (Genuine mpsc Known Said router.connections d.key) _ _ k (
                    subst (λ t. Genuine mpsc Known Said router.connections t f)
                        (sym key ∙ ap (λ t. t.key) same) (genuine (rw (found, went, forward) refl)),
                    tt,
                  )))
              i)
          i)

  own_frame :
      (c : RelayConnection mpsc) (f : RelayFrame)
      → foreign mpsc c f ≡ false
      → (f.installation_id ≡ c.identity.installation_id) × (f.source_id ≡ c.identity.peer_id)
  unfolding foreign
  own_frame c f h = ground (arith, eq_iff f.source_id c.identity.peer_id)

  dispatch-IsRouted :
      (n : ℕ) (c : RelayConnection mpsc) (f : RelayFrame) (router : RelayRouter mpsc)
      → get_elem? router.connections n ≡ some c
      → validate_frame f ≡ none
      → foreign mpsc c f ≡ false
      → ((dispatch mpsc c f router).0 ≡ none → Said n c.identity f)
      → IsRouted mpsc Known Said router
      → IsRouted mpsc Known Said (dispatch mpsc c f router).1
  unfolding dispatch route_of
  dispatch-IsRouted n c f router here valid own said i =
      elim (Option-cases (route_of (destination mpsc c f) router.routes)) [
        | inl missing ↦ rw (missing, dispatch) i
        | inr (route, found) ↦
            let (same, ok_route) =
              find-some (RouteOk mpsc Known Said router.connections) _ router.routes found
                i.routes in
            let (of_frame, of_peer) = own_frame c f own in
            let (at_installation, at_authority, at_peer) = same_key_lem _ _ same in
            rw (found, dispatch)
              (forward-IsRouted f route router ok_route
                (λ went. record {
                  valid = valid;
                  installation = sym at_installation;
                  destination = sym at_peer;
                  place = n;
                  sender = c;
                  connected = here;
                  said = said (rw (found, dispatch) went);
                  source = sym of_peer;
                  of_installation = sym of_frame ∙ sym at_installation;
                  of_authority = sym at_authority;
                })
                i)
      ]

  pub send-IsRouted :
      (n : ℕ) (c : RelayConnection mpsc) (f : RelayFrame) (router : RelayRouter mpsc)
      → get_elem? router.connections n ≡ some c
      → ((send mpsc c f router).0 ≡ none → Said n c.identity f)
      → IsRouted mpsc Known Said router
      → IsRouted mpsc Known Said (send mpsc c f router).1
  unfolding send
  send-IsRouted n c f router here said i = elim (Option-cases (validate_frame f)) [
    | inr (e, bad) ↦ rw (bad, send) i
    | inl valid ↦ elim (Bool-cases (foreign mpsc c f)) [
      | inl other ↦ rw (valid, other, send) i
      | inr own ↦ elim (Bool-cases (is_current mpsc c router)) [
        | inr replaced ↦ rw (valid, own, replaced, send) i
        | inl current ↦
            rw (valid, own, current, send)
              (dispatch-IsRouted n c f router here valid own
                (λ went. said (rw (valid, own, current, send) went)) i)
      ]
    ]
  ]

  connect-IsRouted :
      (identity : RelayIdentity) (router : RelayRouter mpsc)
      → Known identity
      → IsRouted mpsc Known Said router
      → IsRouted mpsc Known Said (connect mpsc identity router)
  unfolding connect remove_route
  connect-IsRouted identity router enrolled i = record {
    routes = (
      (_, get_elem?-last router.connections _, refl, refl),
      All-keep _ _ router.routes (
          All-imp _ _ _ i.routes (
            RouteOk-Extends mpsc Known Said _ _
              (Extends-append (Same mpsc Known Said) (Same-refl mpsc Known Said) _ _))),
    );
    enrolled = All-append _ _ _ i.enrolled ((enrolled, refl), tt);
    frames =
        All-append _ _ _
          (All-imp _ _ _ i.frames (λ c k. All-imp _ _ _ k (
            Genuine-Extends mpsc Known Said _ _
              (Extends-append (Same mpsc Known Said) (Same-refl mpsc Known Said) _ _) c.key)))
          (
            subst (All (Genuine mpsc Known Said _ (key_of identity)))
                (sym (mpsc.waiting-channel router.queue_capacity)) tt,
            tt,
          );
  }

  pub register-IsRouted :
      (is_enrolled proves : RelayIdentity → Bool) (identity : RelayIdentity)
      (router : RelayRouter mpsc)
      → (is_enrolled identity ≡ true → proves identity ≡ true → Known identity)
      → IsRouted mpsc Known Said router
      → IsRouted mpsc Known Said (register mpsc is_enrolled proves identity router).1
  unfolding register
  register-IsRouted is_enrolled proves identity router known i =
      elim (Bool-cases (is_enrolled identity)) [
        | inr unknown ↦ rw (unknown, register) i
        | inl enrolled ↦ elim (Bool-cases (proves identity)) [
          | inr forged ↦ rw (enrolled, forged, register) i
          | inl proved ↦
              rw (enrolled, proved, register)
                (connect-IsRouted identity router (known enrolled proved) i)
        ]
      ]
