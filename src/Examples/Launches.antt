-- ===== src/Examples/Launches.antt =====
-- A launched node over the sample tries, and rounds of its engine.
use zk_ress.Base.{◌≡◌, ◌⊎◌, refl, false, none, some}
use zk_ress.Base.Maps.{lookup, insert, remove}
use zk_ress.ChainState.{insert_block, insert_canonical_hash}
use zk_ress.Download.Downloader.{proof}
use zk_ress.Engine.{ConsensusEngine, new_payload}
use zk_ress.Engine.Poll.{Round, poll_round}
use zk_ress.Env.{Env}
use zk_ress.Examples.Lru.{list_lru-IsLru}
use zk_ress.Examples.Samples.{header_at, sample_env}
use zk_ress.Examples.Tries.{sample_reth, in_order, sample_witness, rooted_block}
use zk_ress.Launch.{genesis_block, witness_env, launch}
use zk_ress.Launch.Sound.{Runs, at_start, and_round, Executed, launch-Executed}
use zk_ress.Primitives.{SealedHeader, Block}
use zk_ress.Provider
use zk_ress.Verifier
use zk_ress.Verifier.StateRoot.{insert_sorted, update_slot}

abbrev node_env : Env
node_env = witness_env sample_env sample_reth in_order

abbrev genesis : SealedHeader
genesis = header_at 10 0 0 0

-- The witness comes first, then a payload with the block.
abbrev witness_round : Round node_env
witness_round = record {
  downloaded = some (proof 11 sample_witness);
  timed_out = false;
  message = none;
}

abbrev payload_round : Round node_env
payload_round = record {
  downloaded = none;
  timed_out = false;
  message = some (new_payload rooted_block 1);
}

abbrev launched : ConsensusEngine node_env
launched = launch node_env genesis tt

abbrev with_block : ConsensusEngine node_env
with_block = (poll_round payload_round (poll_round witness_round launched).0).0

abbrev IsGenesis : Block Unit → Type 0
IsGenesis b = (b ≡ genesis_block genesis tt) ⊎ ⊥

two_rounds : Runs {env = node_env} list_lru-IsLru IsGenesis launched with_block
two_rounds = and_round payload_round (and_round witness_round at_start tt) tt

stores_block : lookup 11 with_block.tree.provider.chain_state.blocks_by_hash ≡ some rooted_block
unfolding launch poll_round lookup insert remove Provider.sealed_header insert_canonical_hash
    insert_block Verifier.verify insert_sorted update_slot
stores_block = refl

launch-Executed_example :
    (rooted_block ≡ genesis_block genesis tt) ⊎ ⊥ ⊎ Executed sample_reth in_order rooted_block
launch-Executed_example =
    launch-Executed sample_env sample_reth in_order list_lru-IsLru (λ b. ⊥) genesis tt 11
      rooted_block two_rounds stores_block
