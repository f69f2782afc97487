-- ===== src/Download/Downloader/Futures.antt =====
-- crates/engine/src/download/mod.rs: the requests in flight, and what they return for.
use zk_ress.Base.{ℕ, ◌≡◌, refl, sym, List, Option, none, some, subst, All}
use zk_ress.Download.{Network}
use zk_ress.Download.Ancestors.{FetchFullBlockWithAncestorsFuture}
use zk_ress.Download.Ancestors.Sound as Ancestors
use zk_ress.Download.Downloader.{EngineDownloader, Answers, poll_block, poll_proof, poll_finalized}
use zk_ress.Download.FullBlock.{FetchFullBlockFuture}
use zk_ress.Download.FullBlock.Sound as Block
use zk_ress.Primitives.{SealedHeader, Block}

-- A request that is not done is for the same hash and stays right, and what is found has that hash.
abbrev pub Kept : {F R : Type 0} → (F → Type 0) → (F → ℕ) → (F → R → ℕ) → F → F × Option R → Type 0
Kept Right hash_of found_hash r (polled, none) = (hash_of polled ≡ hash_of r) × Right polled
Kept Right hash_of found_hash r (polled, some found) = found_hash polled found ≡ hash_of r

module _ {B P : Type 0} (net : Network B P) where
  -- A header that a download of a block has is the one asked for.
  abbrev pub RightBlock : FetchFullBlockFuture B → Type 0
  RightBlock r = Block.HasHash net r.block_hash r.header

  abbrev pub RightFinalized : FetchFullBlockWithAncestorsFuture B → Type 0
  RightFinalized r = Ancestors.IsStage net r.block_hash r.ancestor_count r.state

  abbrev pub IsRight : EngineDownloader B P → Type 0
  IsRight this =
      All RightBlock this.inflight_full_block_requests
      × All RightFinalized this.inflight_finalized_block_requests

  pub poll_block-Kept :
      (answers : Answers net) (r : FetchFullBlockFuture B)
      → RightBlock r
      → Kept RightBlock
          (λ q. q.block_hash)
          (λ q (block : Block B). block.hash)
          r
          (poll_block net answers r)
  unfolding poll_block
  poll_block-Kept answers r v =
      let (still, answered) =
        Block.poll-IsAnswer net r.block_hash (answers.to_blocks r) r (refl, v) in
      by_result (poll_block net answers r).0 (poll_block net answers r).1 still answered
    where
      by_result :
          (next : FetchFullBlockFuture B) (result : Option (Block B))
          → Block.IsFor net r.block_hash next
          → Block.IsAnswer net r.block_hash result
          → Kept RightBlock (λ q. q.block_hash) (λ q (block : Block B). block.hash) r (next, result)
      by_result next none (same, has) answered =
          (same, subst (λ h. Block.HasHash net h next.header) (sym same) has)
      by_result next (some block) still answered = answered.0

  pub poll_proof-Kept :
      (answers : Answers net) (r : ℕ)
      → Kept (λ q. Unit) (λ q. q) (λ q (found : P). q) r (poll_proof net answers r)
  unfolding poll_proof
  poll_proof-Kept answers r = by_result (poll_proof net answers r).1
    where
      by_result : (result : Option P) → Kept (λ q. Unit) (λ q. q) (λ q (found : P). q) r (r, result)
      by_result none = (refl, tt)
      by_result (some found) = refl

  pub poll_finalized-Kept :
      (answers : Answers net) (r : FetchFullBlockWithAncestorsFuture B)
      → RightFinalized r
      → Kept RightFinalized
          (λ q. q.block_hash)
          (λ q (found : Block B × List SealedHeader). found.0.hash)
          r
          (poll_finalized net answers r)
  unfolding poll_finalized
  poll_finalized-Kept answers r v =
      let (responses, ancestors) = answers.to_finalized r in
      let (still, answered) =
        Ancestors.poll-IsFound net r.block_hash r.ancestor_count responses ancestors r (v, refl) in
      by_result (poll_finalized net answers r).0 (poll_finalized net answers r).1 still answered
        (Ancestors.poll-block_hash net r.block_hash r.ancestor_count responses ancestors r)
    where
      by_result :
          (next : FetchFullBlockWithAncestorsFuture B)
          (result : Option (Block B × List SealedHeader))
          → Ancestors.IsValid net r.block_hash r.ancestor_count next
          → Ancestors.IsFound net r.block_hash r.ancestor_count result
          → next.block_hash ≡ r.block_hash
          → Kept RightFinalized
              (λ q. q.block_hash)
              (λ q (found : Block B × List SealedHeader). found.0.hash)
              r
              (next, result)
      by_result next none (staged, counted) answered same = (
        same,
        subst (λ h. Ancestors.IsStage net h next.ancestor_count next.state) (sym same)
            (subst (λ c. Ancestors.IsStage net r.block_hash c next.state) (sym counted) staged),
      )
      by_result next (some (block, headers)) still answered same = answered.0.0
