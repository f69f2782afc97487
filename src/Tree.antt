-- ===== src/Tree.antt =====
-- crates/engine/src/tree/mod.rs: the state of `EngineTree` and its small queries. The stateless fields
-- `consensus`, `engine_validator` and `block_verifier` are operations of `Env`; the metrics and the
-- log lines are left out.
use zk_ress.Base.{
  ℕ, Bool, false, ◌||◌, List, [], ◌∷◌, Option, none, some, ◌==◌, is_some, unwrap_or, map_option,
}
use zk_ress.Base.Maps.{contains_key}
use zk_ress.Buffer
use zk_ress.Buffer.{BlockBuffer}
use zk_ress.Env.{Env, ForkchoiceState}
use zk_ress.Primitives.{NumHash, SealedHeader, Block, num_hash}
use zk_ress.Provider
use zk_ress.Provider.{ZkRessProvider}
pub mod NewHead
pub mod Invalid
pub mod Insert
pub mod Payload
pub mod Forkchoice
pub mod Sound

-- `BeaconConsensusEngineEvent`, without the elapsed times.
pub data EngineEvent (B S : Type 0) : Type 0 where
  canonical_chain_committed : SealedHeader → EngineEvent B S
  fork_block_added canonical_block_added : Block B → EngineEvent B S
  forkchoice_updated : ForkchoiceState → S → EngineEvent B S

-- `BlockStatus`
pub data BlockStatus : Type 0 where
  valid no_proof : BlockStatus
  disconnected : (head missing_ancestor : NumHash) → BlockStatus

-- `InsertPayloadOk`
pub data InsertPayloadOk : Type 0 where
  already_seen : InsertPayloadOk
  inserted : BlockStatus → InsertPayloadOk

pub record EngineTree (env : Env) : Type 0 where
  pub provider : ZkRessProvider env.Body env.Proof
  pub canonical_head : NumHash
  pub forkchoice_state_tracker : env.Tracker
  pub block_buffer : BlockBuffer env.lru env.Body env.Proof
  pub invalid_headers : env.Cache
  -- The events sent so far, the latest first.
  pub events : List (EngineEvent env.Body env.ForkchoiceStatus)

module _ {env : Env} where
  unfoldable pub new : ZkRessProvider env.Body env.Proof → EngineTree env
  unfolding Buffer.new
  new provider = record {
    provider = provider;
    canonical_head = num_hash provider.genesis_header;
    forkchoice_state_tracker = env.tracker_default;
    block_buffer = Buffer.new 256;
    invalid_headers = env.cache_new 256;
    events = [];
  }

  abbrev pub stored : EngineTree env → ℕ → Option SealedHeader
  stored tree hash = Provider.sealed_header tree.provider hash

  unfoldable pub is_sync_target_head : EngineTree env → ℕ → Bool
  is_sync_target_head tree block_hash = elim (env.sync_target_state tree.forkchoice_state_tracker) [
    | none ↦ false
    | some target ↦ target.head_block_hash == block_hash
  ]

  unfoldable pub is_block_persisted_or_buffered : EngineTree env → ℕ → Bool
  is_block_persisted_or_buffered tree block_hash =
      is_some (stored tree block_hash) || contains_key block_hash tree.block_buffer.blocks

  unfoldable pub emit_event :
      EngineEvent env.Body env.ForkchoiceStatus → EngineTree env → EngineTree env
  emit_event event tree = record tree { events = event ∷ tree.events }

  unfoldable pub set_canonical_head : NumHash → EngineTree env → EngineTree env
  set_canonical_head head tree = record tree { canonical_head = head }

  unfoldable pub lowest_buffered_ancestor_or : EngineTree env → ℕ → ℕ
  unfolding Buffer.lowest_ancestor
  lowest_buffered_ancestor_or tree hash =
      unwrap_or (map_option (λ b. b.parent_hash) (Buffer.lowest_ancestor tree.block_buffer hash))
        hash
