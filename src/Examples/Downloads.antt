-- ===== src/Examples/Downloads.antt =====
-- Runs of the downloader.
use zk_ress.Base.{ℕ, ◌+◌, ◌≡◌, List, [], if◌then◌else◌, arith, ◌∷◌, ◌==◌}
use zk_ress.Download.Downloader
use zk_ress.Download.Downloader.{EngineDownloader}
use zk_ress.Download.Downloader.Requests
use zk_ress.Download.FullBlock.{new}
use zk_ress.Env.{ok}
use zk_ress.Examples.Samples.{sample_network}
use zk_ress.Download.Downloader.Calls.{Call, asks_block, asks_proof, asks_finalized, polls, calls}
use zk_ress.Download.Downloader.Held.{Held, calls_lem}
use zk_ress.Download.Downloader.Once.{AtMostOnce}

-- The proof of block 12 comes; the block 13 and its proof do not, and an outcome waits no more.
abbrev proof_comes : Downloader.Answers sample_network
proof_comes = record {
  to_finalized = λ r. ([], []);
  to_blocks = λ r. [];
  to_proofs = λ hash. if hash == 12 then ok 7 ∷ [] else [];
}

abbrev three_requests : EngineDownloader ℕ ℕ
three_requests = record {
  inflight_full_block_requests = new 13 ∷ [];
  inflight_proof_requests = 12 ∷ 13 ∷ [];
  inflight_finalized_block_requests = [];
  outcomes = [];
}

poll-weigh_example :
    Requests.weigh_all
        (λ h. h)
        (λ h. h)
        (λ h. h)
        (Downloader.poll sample_network proof_comes three_requests).0
      + Requests.worth_some
          (λ h. h)
          (λ h. h)
          (λ h. h)
          (Downloader.poll sample_network proof_comes three_requests).1
    ≡ Requests.weigh_all (λ h. h) (λ h. h) (λ h. h) three_requests
poll-weigh_example =
    Requests.poll-weigh (λ h. h) (λ h. h) (λ h. h) sample_network proof_comes three_requests
      ((unfold new in tt, tt), tt)

-- Block 13 is asked for again while it is in flight, then a proof comes and is asked for once more.
abbrev three_calls : List (Call sample_network)
three_calls = polls proof_comes ∷ asks_proof 12 ∷ asks_finalized 11 ∷ []

calls_lem_example :
    AtMostOnce (calls sample_network (asks_block 13 ∷ three_calls) three_requests).0
    × Held sample_network
        (asks_block 13)
        (calls sample_network (asks_block 13 ∷ three_calls) three_requests)
calls_lem_example =
    calls_lem sample_network (asks_block 13) three_calls three_requests ((unfold new in tt, tt), tt)
      (λ h. (unfold new in ground arith, ground arith, ground arith))
