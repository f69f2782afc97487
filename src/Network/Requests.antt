-- ===== src/Network/Requests.antt =====
-- crates/network/src/manager.rs: no request is lost, and connections take turns.
use zk_ress.Base.{
  ℕ, ◌+◌, ◌≡◌, ◌⊎◌, refl, Bool, true, false, List, [], ◌∷◌, ◌++◌, Option, none, some, arith,
  Bool-cases, inl, inr, All, ap,
}
use zk_ress.Network.{
  ConnectionHandle, RessNetworkManager, try_connections, on_peer_request, poll_request, poll_events,
  poll_pending, poll_round,
}

module _ {R : Type 0} where
  -- The request of a round that is taken from the channel: none while a waiting one can be tried, and
  -- none when a connection is established.
  abbrev pub taken_from :
      List ConnectionHandle → List R → Option ConnectionHandle → Option R → Option R
  taken_from (c ∷ cs) (r ∷ rs) event request = none
  taken_from (c ∷ cs) [] (some established) request = none
  taken_from (c ∷ cs) [] none request = request
  taken_from [] waiting (some established) request = none
  taken_from [] waiting none request = request

  abbrev pub taken : Option ConnectionHandle → Option R → RessNetworkManager R → Option R
  taken event request this = taken_from this.connections this.pending_requests event request

  module _ (weight : R → ℕ) where
    abbrev pub weigh : List R → ℕ
    weigh [] = 0
    weigh (r ∷ rs) = weight r + weigh rs

    abbrev pub weigh_sent : List (ConnectionHandle × R) → ℕ
    weigh_sent [] = 0
    weigh_sent ((c, r) ∷ sent) = weight r + weigh_sent sent

    abbrev pub weigh_taken : Option R → ℕ
    weigh_taken none = 0
    weigh_taken (some r) = weight r

    -- The requests that were sent and those that wait.
    abbrev pub weigh_all : RessNetworkManager R → ℕ
    weigh_all this = weigh_sent this.sent + weigh this.pending_requests

    weigh-snoc : (rs : List R) (r : R) → weigh (rs ++ (r ∷ [])) ≡ weigh rs + weight r
    weigh-snoc [] r = omega arith
    weigh-snoc (x ∷ rs) r = omega (arith, weigh-snoc rs r)

    try_connections-weigh :
        (is_open : ConnectionHandle → Bool) (r : R) (cs : List ConnectionHandle)
        (this : RessNetworkManager R)
        → weigh_all (try_connections is_open r cs this) ≡ weight r + weigh_all this
    unfolding try_connections
    try_connections-weigh is_open r [] this = omega (arith, weigh-snoc this.pending_requests r)
    try_connections-weigh is_open r (c ∷ cs) this = elim (Bool-cases (is_open c)) [
      | inl opened ↦ rw (opened, try_connections) (omega arith)
      | inr closed ↦ rw (closed, try_connections) (try_connections-weigh is_open r cs this)
    ]

    poll_events-weigh :
        (is_open : ConnectionHandle → Bool) (event : Option ConnectionHandle) (request : Option R)
        (this : RessNetworkManager R)
        → weigh_all (poll_events is_open event request this).0
          ≡ weigh_taken (taken_from [] [] event request) + weigh_all this
    unfolding poll_events poll_request on_peer_request
    poll_events-weigh is_open (some established) request this = omega arith
    poll_events-weigh is_open none none this = omega arith
    poll_events-weigh is_open none (some r) this =
        try_connections-weigh is_open r this.connections this

    poll_pending-weigh :
        (is_open : ConnectionHandle → Bool) (cs : List ConnectionHandle) (rs : List R)
        (event : Option ConnectionHandle) (request : Option R) (this : RessNetworkManager R)
        → this.pending_requests ≡ rs
        → weigh_all (poll_pending is_open cs rs event request this).0
          ≡ weigh_taken (taken_from cs rs event request) + weigh_all this
    unfolding poll_pending on_peer_request
    poll_pending-weigh is_open [] rs none request this e =
        poll_events-weigh is_open none request this
    poll_pending-weigh is_open [] rs (some c) request this e =
        poll_events-weigh is_open (some c) request this
    poll_pending-weigh is_open (c ∷ cs) [] none request this e =
        poll_events-weigh is_open none request this
    poll_pending-weigh is_open (c ∷ cs) [] (some c') request this e =
        poll_events-weigh is_open (some c') request this
    poll_pending-weigh is_open (c ∷ cs) (r ∷ rs) event request this e =
        let tried =
          try_connections-weigh is_open r this.connections
            (record this { pending_requests = rs }) in
        omega (arith, tried, ap weigh e)

    -- However requests are weighed, the requests sent and those that wait weigh after a round of
    -- the network manager what they weighed before plus what the request weighs that the round
    -- takes: none is lost or sent twice.
    pub poll_round-weigh :
        (is_open : ConnectionHandle → Bool) (event : Option ConnectionHandle) (request : Option R)
        (this : RessNetworkManager R)
        → weigh_all (poll_round is_open event request this).0
          ≡ weigh_taken (taken event request this) + weigh_all this
    unfolding poll_round
    poll_round-weigh is_open event request this =
        poll_pending-weigh is_open this.connections this.pending_requests event request this refl

  -- How a list of connections is used: one is open behind closed ones, or none is.
  pub record Turn (is_open : ConnectionHandle → Bool) (request : R)
      (before after : RessNetworkManager R) : Type 0 where
    pub closed : List ConnectionHandle
    pub next : ConnectionHandle
    pub others : List ConnectionHandle
    pub in_order : before.connections ≡ closed ++ next ∷ others
    pub all_closed : All (λ c. is_open c ≡ false) closed
    pub next_open : is_open next ≡ true
    pub rotated : after.connections ≡ others ++ next ∷ []
    pub delivered : after.sent ≡ (next, request) ∷ before.sent
    pub none_waits : after.pending_requests ≡ before.pending_requests

  try_connections_lem :
      (is_open : ConnectionHandle → Bool) (r : R) (cs : List ConnectionHandle)
      (this : RessNetworkManager R)
      → Turn is_open r (record this { connections = cs }) (try_connections is_open r cs this)
        ⊎ (All (λ c. is_open c ≡ false) cs
            × (try_connections is_open r cs this ≡ record this {
              connections = [];
              pending_requests = this.pending_requests ++ r ∷ [];
            }))
  unfolding try_connections
  try_connections_lem is_open r [] this = inr (tt, refl)
  try_connections_lem is_open r (c ∷ cs) this = elim (Bool-cases (is_open c)) [
    | inl opened ↦
        rw (opened, try_connections)
          (inl (record {
            closed = [];
            next = c;
            others = cs;
            in_order = refl;
            all_closed = tt;
            next_open = opened;
            rotated = refl;
            delivered = refl;
            none_waits = refl;
          }))
    | inr shut ↦ elim (try_connections_lem is_open r cs this) [
      | inl t ↦
          rw (shut, try_connections)
            (inl (record {
              closed = c ∷ t.closed;
              next = t.next;
              others = t.others;
              in_order = ap (λ l. c ∷ l) t.in_order;
              all_closed = (shut, t.all_closed);
              next_open = t.next_open;
              rotated = t.rotated;
              delivered = t.delivered;
              none_waits = t.none_waits;
            }))
      | inr (all, e) ↦ rw (shut, try_connections) (inr ((refl, all), e))
    ]
  ]

  -- A request goes to the first open connection, which becomes the last, and the closed ones
  -- before it are dropped; without an open connection all are dropped and the request waits as the
  -- last.
  pub on_peer_request_lem :
      (is_open : ConnectionHandle → Bool) (r : R) (this : RessNetworkManager R)
      → Turn is_open r this (on_peer_request is_open r this)
        ⊎ (All (λ c. is_open c ≡ false) this.connections
            × (on_peer_request is_open r this ≡ record this {
              connections = [];
              pending_requests = this.pending_requests ++ r ∷ [];
            }))
  unfolding on_peer_request
  on_peer_request_lem is_open r this = try_connections_lem is_open r this.connections this
