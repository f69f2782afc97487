-- ===== src/Download/Ancestors/Sound.antt =====
-- crates/engine/src/download/futs.rs: what `FetchFullBlockWithAncestorsFuture` returns.
use zk_ress.Base.{
  ℕ, ◌≡◌, refl, true, List, [], ◌∷◌, Option, none, some, Option-cases, inl, inr, subst,
}
use zk_ress.Download.{Network, PeerRequestError}
use zk_ress.Download.Ancestors.{
  DownloadState, full_block, ancestors, FetchFullBlockWithAncestorsFuture, new, with_ancestors,
  poll_ancestors, poll,
}
use zk_ress.Download.FullBlock
use zk_ress.Download.FullBlock.{HeaderResponse, BodyResponse}
use zk_ress.Download.FullBlock.Sound as Block
use zk_ress.Download.Headers.{RangeResponse, retry, panics, accept}
use zk_ress.Download.Headers.Range as Range
use zk_ress.Env.{Result}
use zk_ress.Primitives.{SealedHeader, Block}

module _ {B P : Type 0} (net : Network B P) (hash count : ℕ) where
  abbrev pub IsBlock : Block B → Type 0
  IsBlock block = (block.hash ≡ hash) × (net.body_fits block.body block.header ≡ true)

  -- The first download is for the hash, and the second behind a block of the hash.
  abbrev pub IsStage : DownloadState B → Type 0
  IsStage (full_block fut) = Block.IsFor net hash fut
  IsStage (ancestors block) = IsBlock block

  -- What is returned: the block, and headers from its parent down, as many as asked for.
  abbrev pub IsFound : Option (Block B × List SealedHeader) → Type 0
  IsFound none = Unit
  IsFound (some (block, headers)) =
      IsBlock block
      × Range.IsRange net (record { start_hash = block.parent_hash; limit = count }) headers

  abbrev pub IsValid : FetchFullBlockWithAncestorsFuture B → Type 0
  IsValid this = IsStage this.state × (this.ancestor_count ≡ count)

  abbrev pub Answers : Type 0
  Answers = List (Result (List net.RawHeader) PeerRequestError)

  abbrev pub Responses : Type 0
  Responses = List (Option (HeaderResponse net) × Option (BodyResponse net))

  with_ancestors-IsFound :
      (block : Block B) (response : Option RangeResponse)
      → IsBlock block
      → Range.IsAnswer net (record { start_hash = block.parent_hash; limit = count }) response
      → IsFound (with_ancestors net block response)
  unfolding with_ancestors
  with_ancestors-IsFound block none v w = tt
  with_ancestors-IsFound block (some retry) v w = tt
  with_ancestors-IsFound block (some panics) v w = tt
  with_ancestors-IsFound block (some (accept headers)) v w = (v, w)

  poll_ancestors-IsFound :
      (block : Block B) (answers : Answers) (this : FetchFullBlockWithAncestorsFuture B)
      → IsBlock block
      → this.ancestor_count ≡ count
      → IsFound (poll_ancestors net block answers this).1
  unfolding poll_ancestors
  poll_ancestors-IsFound block answers this v same = rw (same) (
      with_ancestors-IsFound block _ v
        (Range.poll-IsRange net (record { start_hash = block.parent_hash; limit = count }) answers))

  pub poll-IsFound :
      (responses : Responses) (answers : Answers) (this : FetchFullBlockWithAncestorsFuture B)
      → IsValid this
      → IsValid (poll net responses answers this).0 × IsFound (poll net responses answers this).1
  unfolding poll poll_ancestors
  poll-IsFound responses answers this (staged, counted) = by_stage this.state refl staged
    where
      by_stage :
          (stage : DownloadState B)
          → this.state ≡ stage
          → IsStage stage
          → IsValid (poll net responses answers this).0
            × IsFound (poll net responses answers this).1
      by_stage (ancestors block) e v =
          rw (e, poll) ((v, counted), poll_ancestors-IsFound block answers this v counted)
      by_stage (full_block fut) e v =
          let (still, answered) = Block.poll-IsAnswer net hash responses fut v in
          elim (Option-cases (FullBlock.poll net responses fut).1) [
            | inl waits ↦ rw (e, poll, waits) ((still, counted), tt)
            | inr (block, came) ↦
                let is_block : IsBlock block = rw (came) at answered in
                rw (e, poll, came)
                  ((is_block, counted), poll_ancestors-IsFound block answers this is_block counted)
          ]

  -- A poll keeps the hash that the future is for.
  pub poll-block_hash :
      (responses : Responses) (answers : Answers) (this : FetchFullBlockWithAncestorsFuture B)
      → (poll net responses answers this).0.block_hash ≡ this.block_hash
  unfolding poll poll_ancestors
  poll-block_hash responses answers this = by_stage this.state refl
    where
      by_stage :
          (stage : DownloadState B)
          → this.state ≡ stage
          → (poll net responses answers this).0.block_hash ≡ this.block_hash
      by_stage (ancestors block) e = rw (e, poll) refl
      by_stage (full_block fut) e = elim (Option-cases (FullBlock.poll net responses fut).1) [
        | inl waits ↦ rw (e, poll, waits) refl
        | inr (block, came) ↦ rw (e, poll, came) refl
      ]

  -- The calls of `poll` up to the first that returns something.
  abbrev pub run :
      List (Responses × Answers)
      → FetchFullBlockWithAncestorsFuture B
      → Option (Block B × List SealedHeader)
  run [] this = none
  run ((responses, answers) ∷ later) this =
      let (next, result) = poll net responses answers this in
      let rest = run later next in elim result [ none ↦ rest | some found ↦ some found ]

  run-IsFound :
      (polls : List (Responses × Answers)) (this : FetchFullBlockWithAncestorsFuture B)
      → IsValid this
      → IsFound (run polls this)
  run-IsFound [] this v = tt
  run-IsFound ((responses, answers) ∷ later) this v =
      let (w, found) = poll-IsFound responses answers this v in
      by_result (poll net responses answers this).1 found
        (run-IsFound later (poll net responses answers this).0 w)
    where
      by_result :
          (result : Option (Block B × List SealedHeader))
          → IsFound result
          → IsFound (run later (poll net responses answers this).0)
          → IsFound (elim result [
            | none ↦ run later (poll net responses answers this).0
            | some found ↦ some found
          ])
      by_result none found rest = rest
      by_result (some pair) found rest = found

  -- Whatever peers answer, over any number of polls, a new download of a block with its ancestors
  -- returns only a block that has the hash asked for and whose body fits its header, with headers
  -- that begin with its parent hash, are at least as many as asked for, and pass, in rising order,
  -- the range check of the consensus.
  pub run-new :
      (polls : List (Responses × Answers)) (block : Block B) (headers : List SealedHeader)
      → run polls (new hash count) ≡ some (block, headers)
      → (block.hash ≡ hash)
        × (net.body_fits block.body block.header ≡ true)
        × Range.IsRange net (record { start_hash = block.parent_hash; limit = count }) headers
  unfolding new FullBlock.new
  run-new polls block headers e =
      let ((same, fits), range) =
        subst IsFound e (run-IsFound polls (new hash count) ((refl, tt), refl)) in
      (same, fits, range)
