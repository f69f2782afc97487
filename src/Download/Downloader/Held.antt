-- ===== src/Download/Downloader/Held.antt =====
-- crates/engine/src/download/mod.rs: what is asked for is not lost.
use zk_ress.Base.{ℕ, ◌+◌, ◌≤◌, ◌≡◌, refl, List, [], ◌∷◌, Option, none, some, arith}
use zk_ress.Download.{Network}
use zk_ress.Download.Ancestors
use zk_ress.Download.Downloader.{
  DownloadData, EngineDownloader, download_full_block, download_proof,
  download_finalized_with_ancestors,
}
use zk_ress.Download.FullBlock
use zk_ress.Download.Downloader.Requests.{weigh, worth, worth_some, weigh_all, poll-weigh}
use zk_ress.Download.Downloader.Calls.{
  Call, asks_block, asks_proof, asks_finalized, polls, collect, call, calls,
}
use zk_ress.Download.Downloader.Futures.{IsRight}
use zk_ress.Download.Downloader.Once.{AtMostOnce, call-IsRight, calls-AtMostOnce}
use zk_ress.Download.Downloader.Times.{only, never, push_new_grows, push_new-asked}

module _ {B P : Type 0} (net : Network B P) (blocks proofs finalized : ℕ → ℕ) where
  -- Calls lose nothing of what is in flight, waits or was returned.
  call-weigh :
      (c : Call net) (this : EngineDownloader B P)
      → IsRight net this
      → weigh_all blocks proofs finalized this
        ≤ weigh_all blocks proofs finalized (call net c this).0
          + worth_some blocks proofs finalized (call net c this).1
  unfolding call download_full_block download_proof download_finalized_with_ancestors
  call-weigh (asks_block hash) this t = omega (
    arith,
    push_new_grows (λ r. r.block_hash) (λ r. blocks r.block_hash) _
        this.inflight_full_block_requests,
  )
  call-weigh (asks_proof hash) this t =
      omega (arith, push_new_grows (λ r. r) proofs hash this.inflight_proof_requests)
  call-weigh (asks_finalized hash) this t = omega (
    arith,
    push_new_grows (λ r. r.block_hash) (λ r. finalized r.block_hash) _
        this.inflight_finalized_block_requests,
  )
  call-weigh (polls answers) this t =
      omega (arith, poll-weigh blocks proofs finalized net answers this t)

  collect-weigh :
      (out : Option (DownloadData B P)) (outs : List (DownloadData B P))
      → weigh (worth blocks proofs finalized) (collect out outs)
        ≡ worth_some blocks proofs finalized out + weigh (worth blocks proofs finalized) outs
  collect-weigh none outs = omega arith
  collect-weigh (some out) outs = refl

  -- What is in flight, waits or was returned.
  abbrev pub weigh_held : EngineDownloader B P × List (DownloadData B P) → ℕ
  weigh_held (this, outs) =
      weigh_all blocks proofs finalized this + weigh (worth blocks proofs finalized) outs

  calls-weigh :
      (cs : List (Call net)) (this : EngineDownloader B P)
      → IsRight net this
      → weigh_all blocks proofs finalized this ≤ weigh_held (calls net cs this)
  unfolding calls
  calls-weigh [] this t = omega arith
  calls-weigh (c ∷ cs) this t =
      let (next, out) = call net c this in
      omega (
        arith,
        call-weigh c this t,
        calls-weigh cs next (call-IsRight net c this t),
        collect-weigh out (calls net cs next).1,
      )

module _ {B P : Type 0} (net : Network B P) where
  -- What a call asked for is in flight, waits or was returned.
  abbrev pub Held : Call net → EngineDownloader B P × List (DownloadData B P) → Type 0
  Held (asks_block hash) after = 1 ≤ weigh_held net (only hash) never never after
  Held (asks_proof hash) after = 1 ≤ weigh_held net never (only hash) never after
  Held (asks_finalized hash) after = 1 ≤ weigh_held net never never (only hash) after
  Held (polls answers) after = Unit

  calls-Held :
      (c : Call net) (cs : List (Call net)) (this : EngineDownloader B P)
      → IsRight net this
      → Held c (calls net (c ∷ cs) this)
  unfolding calls call download_full_block download_proof download_finalized_with_ancestors
  calls-Held (asks_block hash) cs this t = omega (
    arith,
    calls-weigh net (only hash) never never cs (download_full_block hash this)
        (call-IsRight net (asks_block hash) this t),
    push_new-asked (λ r. r.block_hash) (FullBlock.new hash) this.inflight_full_block_requests,
  )
  calls-Held (asks_proof hash) cs this t = omega (
    arith,
    calls-weigh net never (only hash) never cs (download_proof hash this)
        (call-IsRight net (asks_proof hash) this t),
    push_new-asked (λ r. r) hash this.inflight_proof_requests,
  )
  calls-Held (asks_finalized hash) cs this t = omega (
    arith,
    calls-weigh net never never (only hash) cs (download_finalized_with_ancestors hash this)
        (call-IsRight net (asks_finalized hash) this t),
    push_new-asked (λ r. r.block_hash) (Ancestors.new hash 256)
        this.inflight_finalized_block_requests,
  )
  calls-Held (polls answers) cs this t = tt

  -- Over any calls of a downloader, whatever peers answer, no block, proof or finalized block is
  -- asked for twice at a time, if none was before and the downloads in flight hold no header or
  -- block but of the hash that they ask for, and what the first call asked for is in flight at the
  -- end, or an outcome of its kind and hash waits or was returned.
  pub calls_lem :
      (c : Call net) (cs : List (Call net)) (this : EngineDownloader B P)
      → IsRight net this
      → AtMostOnce this
      → AtMostOnce (calls net (c ∷ cs) this).0 × Held c (calls net (c ∷ cs) this)
  calls_lem c cs this right v =
      (calls-AtMostOnce net (c ∷ cs) this right v, calls-Held c cs this right)
