-- ===== src/Download/Downloader/Once.antt =====
-- crates/engine/src/download/mod.rs: no hash is asked for twice at a time.
use zk_ress.Base.{ℕ, ◌≤◌, ◌≡◌, refl, List, [], ◌∷◌, arith}
use zk_ress.Download.{Network}
use zk_ress.Download.Ancestors
use zk_ress.Download.Downloader.{
  DownloadData, EngineDownloader, Answers, advance_all, pop_outcome, poll, download_full_block,
  download_proof, download_finalized_with_ancestors,
}
use zk_ress.Download.Downloader.Calls.{
  Call, asks_block, asks_proof, asks_finalized, polls, call, calls,
}
use zk_ress.Download.Downloader.Futures.{RightBlock, RightFinalized, IsRight}
use zk_ress.Download.Downloader.Requests.{poll_waits, advance_all-Advanced}
use zk_ress.Download.Downloader.Times.{only, never, times, push_new-times, push_new-All}
use zk_ress.Download.FullBlock

module _ {B P : Type 0} where
  -- No block, proof or finalized block is asked for twice at a time.
  abbrev pub AtMostOnce : EngineDownloader B P → Type 0
  AtMostOnce this =
      (h : ℕ)
      → (times (λ r. r.block_hash) h this.inflight_full_block_requests ≤ 1)
        × (times (λ r. r) h this.inflight_proof_requests ≤ 1)
        × (times (λ r. r.block_hash) h this.inflight_finalized_block_requests ≤ 1)

module _ {B P : Type 0} (net : Network B P) where
  advance_all-AtMostOnce :
      (answers : Answers net) (this : EngineDownloader B P)
      → IsRight net this
      → AtMostOnce this
      → AtMostOnce (advance_all net answers this)
  advance_all-AtMostOnce answers this right v h =
      let w = only h in
      let advanced = advance_all-Advanced w w w net answers this right in
      let (few_bs, few_ps, few_fs) = v h in
      (
        omega (arith, few_bs, advanced.fewer_blocks),
        omega (arith, few_ps, advanced.fewer_proofs),
        omega (arith, few_fs, advanced.fewer_finalized),
      )

  popped :
      (Holds : EngineDownloader B P → Type 0)
      → ((d : EngineDownloader B P) (outs : List (DownloadData B P))
          → Holds d
          → Holds (record d { outcomes = outs }))
      → (outs : List (DownloadData B P)) (d : EngineDownloader B P) → Holds d
      → Holds (pop_outcome outs d).0
  unfolding pop_outcome
  popped Holds free [] d h = h
  popped Holds free (o ∷ os) d h = free d os h

  -- What holds after the three loops, and does not depend on the outcomes that wait, holds after a poll.
  poll_by :
      (Holds : EngineDownloader B P → Type 0) (answers : Answers net) (this : EngineDownloader B P)
      → ((d : EngineDownloader B P) (outs : List (DownloadData B P))
          → Holds d
          → Holds (record d { outcomes = outs }))
      → Holds this
      → Holds (advance_all net answers this)
      → Holds (poll net answers this).0
  unfolding poll
  poll_by Holds answers this free v w = by_outcomes this.outcomes refl
    where
      by_outcomes :
          (outs : List (DownloadData B P)) → this.outcomes ≡ outs → Holds (poll net answers this).0
      by_outcomes (o ∷ os) e = rw (e, poll) (free this os v)
      by_outcomes [] e = rw (poll_waits net answers this e) (
          popped Holds free (advance_all net answers this).outcomes (advance_all net answers this)
            w)

  call-AtMostOnce :
      (c : Call net) (this : EngineDownloader B P)
      → IsRight net this
      → AtMostOnce this
      → AtMostOnce (call net c this).0
  unfolding call download_full_block download_proof download_finalized_with_ancestors
  call-AtMostOnce (asks_block hash) this right v h =
      let (blocks, proofs, finalized) = v h in
      (
        push_new-times (λ r. r.block_hash) h _ this.inflight_full_block_requests blocks,
        proofs,
        finalized,
      )
  call-AtMostOnce (asks_proof hash) this right v h =
      let (blocks, proofs, finalized) = v h in
      (blocks, push_new-times (λ r. r) h hash this.inflight_proof_requests proofs, finalized)
  call-AtMostOnce (asks_finalized hash) this right v h =
      let (blocks, proofs, finalized) = v h in
      (
        blocks,
        proofs,
        push_new-times (λ r. r.block_hash) h _ this.inflight_finalized_block_requests finalized,
      )
  call-AtMostOnce (polls answers) this right v h =
      poll_by AtMostOnce answers this (λ d outs w. w) v
        (advance_all-AtMostOnce answers this right v) h

  pub call-IsRight :
      (c : Call net) (this : EngineDownloader B P)
      → IsRight net this
      → IsRight net (call net c this).0
  unfolding call download_full_block download_proof download_finalized_with_ancestors FullBlock.new
      Ancestors.new
  call-IsRight (asks_block hash) this (bs, fs) =
      (push_new-All (λ r. r.block_hash) (RightBlock net) (FullBlock.new hash) _ tt bs, fs)
  call-IsRight (asks_proof hash) this v = v
  call-IsRight (asks_finalized hash) this (bs, fs) = (
    bs,
    push_new-All (λ r. r.block_hash) (RightFinalized net) (Ancestors.new hash 256) _ (refl, tt) fs,
  )
  call-IsRight (polls answers) this v =
      poll_by (IsRight net) answers this (λ d outs w. w) v
        (advance_all-Advanced never never never net answers this v).still

  pub calls-AtMostOnce :
      (cs : List (Call net)) (this : EngineDownloader B P)
      → IsRight net this
      → AtMostOnce this
      → AtMostOnce (calls net cs this).0
  unfolding calls
  calls-AtMostOnce [] this right v = v
  calls-AtMostOnce (c ∷ cs) this right v =
      calls-AtMostOnce cs (call net c this).0 (call-IsRight c this right)
        (call-AtMostOnce c this right v)
