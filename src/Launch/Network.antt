-- ===== src/Launch/Network.antt =====
-- bin/zk-ress/src/launch.rs: `NodeLauncher::launch_network`. The network manager of reth, and the
-- resolution of peers, are parameters.
use zk_ress.Base.{ℕ, List, [], ◌∷◌, Option, none, some, true}
use zk_ress.Env.{Result, ok}
use zk_ress.Network
use zk_ress.Network.{RessNetworkManager}
use zk_ress.Network.Handle.{ZkRessPeerRequest, RessNetworkHandle}
use zk_ress.Results.{◌>>=◌}

-- What the launcher is given: the type of `TrustedPeer`, and that of errors.
pub record Peers : Type 1 where
  pub TrustedPeer : Type 0
  pub Error : Type 0
  pub id : TrustedPeer → ℕ
  pub tcp_addr : TrustedPeer → Result ℕ Error

-- A network that runs: the peers that reth's manager was told, the latest first, the most connections of
-- the protocol, the manager of this repository, and the handle to it.
pub record RunningNetwork : Type 0 where
  pub peers : List (ℕ × ℕ)
  pub max_active_connections : ℕ
  pub manager : RessNetworkManager ZkRessPeerRequest
  pub handle : RessNetworkHandle

-- `unimplemented!` makes the launch panic.
pub data Launched : Type 0 where
  panics : Launched
  runs : RunningNetwork → Launched

module _ (env : Peers) where
  -- The loop over the trusted peers; the first that has no address ends it.
  unfoldable pub add_trusted_peers :
      List env.TrustedPeer → List (ℕ × ℕ) → Result (List (ℕ × ℕ)) env.Error
  add_trusted_peers [] peers = ok peers
  add_trusted_peers (trusted_peer ∷ rest) peers = do
    trusted_peer_addr ← env.tcp_addr trusted_peer
    add_trusted_peers rest ((env.id trusted_peer, trusted_peer_addr) ∷ peers)

  -- The choice at the end of `launch_network`.
  unfoldable pub run_network : {U : Type 0} → Option U → ℕ → List (ℕ × ℕ) → Launched
  unfolding Network.new
  run_network (some rpc_url) max_active_connections peers = panics
  run_network none max_active_connections peers = runs (record {
    peers = peers;
    max_active_connections = max_active_connections;
    manager = Network.new;
    handle = record { is_open = true; requests = [] };
  })

  -- The first argument is whether reth's manager can be made, the second `rpc_network_adapter_url`.
  unfoldable pub launch_network :
      {U M : Type 0}
      → Result M env.Error
      → Option U
      → ℕ
      → List env.TrustedPeer
      → Result Launched env.Error
  unfolding add_trusted_peers run_network
  launch_network network_manager rpc_network_adapter_url max_active_connections trusted_peers = do
    made ← network_manager
    peers ← add_trusted_peers trusted_peers []
    ok (run_network rpc_network_adapter_url max_active_connections peers)
