-- ===== src/Examples/Engines.antt =====
-- Runs of the engine in the sample environment.
use zk_ress.Base.{◌≡◌, true, false, [], ◌∷◌, none, some, arith}
use zk_ress.Base.Maps.{lookup}
use zk_ress.Download.Downloader.{finalized_block}
use zk_ress.Engine.{ConsensusEngine, new_payload}
use zk_ress.Engine.Poll.{Round, poll_round}
use zk_ress.Engine.Channels.{channels, read, with_channel, poll_round-channels}
use zk_ress.Engine.Sound.Downloads.{TrustsSome}
use zk_ress.Engine.Sound.{poll_round-IsSound}
use zk_ress.Examples.Lru.{list_lru-IsLru}
use zk_ress.Examples.Samples.{second_block, third_block, sample_env, two_stored}
use zk_ress.Examples.Trees.{sample_tree, Low, sample_tree-IsSound}
use zk_ress.Primitives.{Block}
use zk_ress.Tree.Sound.{IsSound}

-- A payload waits for the proof of block 13, on channel 5.
abbrev sample_engine : ConsensusEngine sample_env
sample_engine = record {
  tree = sample_tree;
  downloader = record {
    inflight_full_block_requests = [];
    inflight_proof_requests = 13 ∷ [];
    inflight_finalized_block_requests = [];
    outcomes = [];
  };
  parked_payload = some (record { block_hash = 13; tx = 5 });
  replies = [];
}

-- The parked payload times out, and another payload comes on channel 6.
abbrev late_round : Round sample_env
late_round = record {
  downloaded = none;
  timed_out = true;
  message = some (new_payload third_block 6);
}

-- The second block comes as the finalized one.
abbrev finalized_round : Round sample_env
finalized_round = record {
  downloaded = some (finalized_block second_block []);
  timed_out = false;
  message = none;
}

poll_round-channels_example :
    channels (poll_round late_round sample_engine).0
    ≡ with_channel (read late_round sample_engine) (channels sample_engine)
poll_round-channels_example = poll_round-channels late_round sample_engine

poll_round-IsSound_example : IsSound Low (poll_round finalized_round sample_engine).0.tree
poll_round-IsSound_example =
    poll_round-IsSound list_lru-IsLru Low finalized_round sample_engine second_safe
      sample_tree-IsSound
  where
    second-Agrees :
        (old : Block Unit) → lookup 12 two_stored.blocks_by_hash ≡ some old → old.number ≡ 2
    second-Agrees old e = unfold lookup in ground (arith, e)

    second_safe : TrustsSome list_lru-IsLru Low finalized_round.downloaded sample_tree
    second_safe = (omega arith, second-Agrees)
