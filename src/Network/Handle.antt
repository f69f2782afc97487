-- ===== src/Network/Handle.antt =====
-- crates/network/src/handle.rs: `RessNetworkHandle`, which puts requests on the channel to the manager and
-- waits for the replies. Whether the channel is open, and the reply (none if it is dropped), are inputs.
use zk_ress.Base.{ℕ, Bool, true, false, List, ◌∷◌, Option}
use zk_ress.Download.{PeerRequestError, request_dropped, connection_closed}
use zk_ress.Download.Headers.{GetHeaders}
use zk_ress.Env.{Result, ok, err}
use zk_ress.Results.{◌>>=◌, ok_or}

-- `ZkRessPeerRequest`, without the channels for the replies.
pub data ZkRessPeerRequest : Type 0 where
  get_headers : GetHeaders → ZkRessPeerRequest
  get_block_bodies : List ℕ → ZkRessPeerRequest
  get_proof : ℕ → ZkRessPeerRequest

-- The requests on the channel, the latest first.
pub record RessNetworkHandle : Type 0 where
  pub is_open : Bool
  pub requests : List ZkRessPeerRequest

unfoldable pub send_request :
    ZkRessPeerRequest → RessNetworkHandle → Result RessNetworkHandle PeerRequestError
send_request request this = elim this.is_open [
  | true ↦ ok (record this { requests = request ∷ this.requests })
  | false ↦ err connection_closed
]

module _ {R : Type 0} (reply : Option R) where
  -- What the three methods have in common.
  unfoldable pub fetch :
      ZkRessPeerRequest → RessNetworkHandle → Result (RessNetworkHandle × R) PeerRequestError
  unfolding send_request
  fetch request this = do
    sent ← send_request request this
    response ← ok_or reply request_dropped
    ok (sent, response)

  unfoldable pub fetch_headers :
      GetHeaders → RessNetworkHandle → Result (RessNetworkHandle × R) PeerRequestError
  unfolding fetch
  fetch_headers request this = fetch (get_headers request) this

  unfoldable pub fetch_block_bodies :
      List ℕ → RessNetworkHandle → Result (RessNetworkHandle × R) PeerRequestError
  unfolding fetch
  fetch_block_bodies request this = fetch (get_block_bodies request) this

  unfoldable pub fetch_proof :
      ℕ → RessNetworkHandle → Result (RessNetworkHandle × R) PeerRequestError
  unfolding fetch
  fetch_proof block_hash this = fetch (get_proof block_hash) this
