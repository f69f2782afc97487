-- ===== src/Network.antt =====
-- crates/network/src/manager.rs: `RessNetworkManager`, which forwards requests to peer connections in
-- turn. Whether a connection takes a request is an input.
pub mod Requests
pub mod Handle
use zk_ress.Base.{ℕ, Bool, true, false, List, [], ◌∷◌, ◌++◌, Option, none, some, if◌then◌else◌}

-- `ConnectionHandle`: a peer, and a channel to it.
pub record ConnectionHandle : Type 0 where
  pub peer_id : ℕ
  pub to_connection : ℕ

-- The head of a list is the front of a queue. `sent` records what was handed to which connection, the
-- latest first.
pub record RessNetworkManager (R : Type 0) : Type 0 where
  pub connections : List ConnectionHandle
  pub pending_requests : List R
  pub sent : List (ConnectionHandle × R)

module _ {R : Type 0} where
  unfoldable pub new : RessNetworkManager R
  new = record { connections = []; pending_requests = []; sent = [] }

  -- The `while` loop of `on_peer_request` over the connections that are left.
  unfoldable pub try_connections :
      (ConnectionHandle → Bool)
      → R
      → List ConnectionHandle
      → RessNetworkManager R
      → RessNetworkManager R
  try_connections is_open request [] this = record this {
    connections = [];
    pending_requests = this.pending_requests ++ request ∷ [];
  }
  try_connections is_open request (c ∷ cs) this =
      if is_open c
      then record this { connections = cs ++ c ∷ []; sent = (c, request) ∷ this.sent }
      else try_connections is_open request cs this

  unfoldable pub on_peer_request :
      (ConnectionHandle → Bool) → R → RessNetworkManager R → RessNetworkManager R
  unfolding try_connections
  on_peer_request is_open request this = try_connections is_open request this.connections this

  -- The third and second tests of the loop in `poll`: a request, and an established connection.
  unfoldable pub poll_request :
      (ConnectionHandle → Bool) → Option R → RessNetworkManager R → RessNetworkManager R × Bool
  unfolding on_peer_request
  poll_request is_open none this = (this, false)
  poll_request is_open (some request) this = (on_peer_request is_open request this, true)

  unfoldable pub poll_events :
      (ConnectionHandle → Bool)
      → Option ConnectionHandle
      → Option R
      → RessNetworkManager R
      → RessNetworkManager R × Bool
  unfolding poll_request
  poll_events is_open none request this = poll_request is_open request this
  poll_events is_open (some established) request this =
      (record this { connections = this.connections ++ established ∷ [] }, true)

  -- One round of the loop in `poll`: whether it goes on. A request that waits goes first, if there is
  -- a connection.
  unfoldable pub poll_pending :
      (ConnectionHandle → Bool)
      → List ConnectionHandle
      → List R
      → Option ConnectionHandle
      → Option R
      → RessNetworkManager R
      → RessNetworkManager R × Bool
  unfolding on_peer_request poll_events
  poll_pending is_open [] waiting event request this = poll_events is_open event request this
  poll_pending is_open (c ∷ cs) [] event request this = poll_events is_open event request this
  poll_pending is_open (c ∷ cs) (r ∷ rs) event request this =
      (on_peer_request is_open r (record this { pending_requests = rs }), true)

  unfoldable pub poll_round :
      (ConnectionHandle → Bool)
      → Option ConnectionHandle
      → Option R
      → RessNetworkManager R
      → RessNetworkManager R × Bool
  unfolding poll_pending
  poll_round is_open event request this =
      poll_pending is_open this.connections this.pending_requests event request this
