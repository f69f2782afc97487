-- ===== src/Download/Ancestors.antt =====
-- crates/engine/src/download/futs.rs: `FetchFullBlockWithAncestorsFuture`, the two downloads one after
-- the other.
pub mod Sound
use zk_ress.Base.{ℕ, List, Option, none, some}
use zk_ress.Download.{Network, PeerRequestError}
use zk_ress.Download.FullBlock
use zk_ress.Download.FullBlock.{FetchFullBlockFuture, HeaderResponse, BodyResponse}
use zk_ress.Download.Headers
use zk_ress.Download.Headers.{GetHeaders, RangeResponse, retry, panics, accept}
use zk_ress.Env.{Result}
use zk_ress.Primitives.{SealedHeader, Block}

-- `FullBlockWithAncestorsDownloadState`
pub data DownloadState (B : Type 0) : Type 0 where
  full_block : FetchFullBlockFuture B → DownloadState B
  ancestors : Block B → DownloadState B

pub record FetchFullBlockWithAncestorsFuture (B : Type 0) : Type 0 where
  pub block_hash : ℕ
  pub ancestor_count : ℕ
  pub state : DownloadState B

unfoldable pub new : {B : Type 0} → ℕ → ℕ → FetchFullBlockWithAncestorsFuture B
unfolding FullBlock.new
new block_hash ancestor_count = record {
  block_hash = block_hash;
  ancestor_count = ancestor_count;
  state = full_block (FullBlock.new block_hash);
}

module _ {B P : Type 0} (net : Network B P) where
  -- The block and the headers of its ancestors, once both are there. A panic returns nothing.
  unfoldable pub with_ancestors :
      Block B → Option RangeResponse → Option (Block B × List SealedHeader)
  with_ancestors block none = none
  with_ancestors block (some retry) = none
  with_ancestors block (some panics) = none
  with_ancestors block (some (accept headers)) = some (block, headers)

  unfoldable pub poll_ancestors :
      Block B
      → List (Result (List net.RawHeader) PeerRequestError)
      → FetchFullBlockWithAncestorsFuture B
      → FetchFullBlockWithAncestorsFuture B × Option (Block B × List SealedHeader)
  unfolding Headers.poll with_ancestors
  poll_ancestors block answers this =
      let request : GetHeaders = record {
        start_hash = block.parent_hash;
        limit = this.ancestor_count;
      } in
      (
        record this { state = ancestors block },
        with_ancestors block (Headers.poll net request answers),
      )

  -- `poll`, given what the rounds of the first download find and the answers of the second.
  unfoldable pub poll :
      List (Option (HeaderResponse net) × Option (BodyResponse net))
      → List (Result (List net.RawHeader) PeerRequestError)
      → FetchFullBlockWithAncestorsFuture B
      → FetchFullBlockWithAncestorsFuture B × Option (Block B × List SealedHeader)
  unfolding FullBlock.poll poll_ancestors
  poll responses answers this = elim this.state [
    | ancestors block ↦ poll_ancestors block answers this
    | full_block fut ↦
        let (next, result) = FullBlock.poll net responses fut in
        elim result [
          | none ↦ (record this { state = full_block next }, none)
          | some block ↦ poll_ancestors block answers this
        ]
  ]
