-- ===== src/Launch.antt =====
-- bin/zk-ress/src/launch.rs: what `NodeLauncher::launch` sets up. The sockets, tasks and metrics around
-- it are left out.
pub mod Sound
pub mod Network
use zk_ress.Base.{ℕ, List, none}
use zk_ress.Engine
use zk_ress.Engine.{ConsensusEngine}
use zk_ress.Env.{Env}
use zk_ress.Primitives.{SealedHeader, Block}
use zk_ress.Provider
use zk_ress.Provider.{ZkRessProvider}
use zk_ress.Results.{error_of}
use zk_ress.Reth.{ExecutionStateWitness, Reth}
use zk_ress.Verifier
use zk_ress.Verifier.StateRoot.{Arrival}

-- `SealedBlock::from_parts_unchecked` on the genesis header and the empty body.
unfoldable pub genesis_block : {B : Type 0} → SealedHeader → B → Block B
genesis_block genesis default_body = record { header = genesis; body = default_body }

-- The provider with the genesis block.
unfoldable pub launch_provider : {B P : Type 0} → SealedHeader → B → ZkRessProvider B P
unfolding genesis_block Provider.new Provider.insert_block Provider.insert_canonical_hash
launch_provider genesis default_body =
    let provider =
      Provider.insert_block (genesis_block genesis default_body) none (Provider.new genesis) in
    Provider.insert_canonical_hash 0 genesis.hash provider

-- The engine gets the verifier over execution witnesses, and both the same consensus.
abbrev pub witness_env :
    (env : Env) (reth : Reth env.Body env.Error)
    → (List (Arrival reth.tries) → List (Arrival reth.tries))
    → Env
witness_env env reth arrivals = record env {
  Proof = ExecutionStateWitness reth.Bytes;
  validate_header = reth.validate_header;
  validate_block_pre_execution = reth.validate_block_pre_execution;
  verify =
      λ known block parent proof. error_of (Verifier.verify reth arrivals known block parent proof);
}

unfoldable pub launch : (env : Env) → SealedHeader → env.Body → ConsensusEngine env
unfolding launch_provider Engine.new
launch env genesis default_body = Engine.new (launch_provider genesis default_body)
