-- ===== src/Engine/Sound/Downloads.antt =====
-- crates/engine/src/engine.rs: an outcome of the downloader keeps the tree's invariant.
use zk_ress.Base.{
  ℕ, ◌≡◌, List, [], ◌∷◌, Option, none, some, arith, ◌==◌, Option-cases, Bool-cases, inl, inr,
}
use zk_ress.Base.Maps.{lookup, lookup-insert, contains_key}
use zk_ress.Buffer
use zk_ress.Buffer.Insert.{insert_block-IsValid}
use zk_ress.Buffer.Invariant.{remove_block-IsValid, insert_proof-IsValid}
use zk_ress.Buffer.Lru.{IsLru}
use zk_ress.ChainState
use zk_ress.ChainState.Invariant.{
  Agrees, insert_block-IsConsistent, insert_canonical_hash-IsConsistent,
}
use zk_ress.Download.Downloader.{DownloadData, full_block, proof, finalized_block}
use zk_ress.Engine.{
  ConsensusEngine, event_of, outcome_of, on_tree_event, on_maybe_tree_event, unpark, unlock_block,
  unlock, insert_ancestors, adopt_finalized, on_download_outcome, with_tree,
}
use zk_ress.Env.{Env, Result, PayloadStatus}
use zk_ress.Outcome.{TreeEvent, tree_action, download, TreeAction, DownloadRequest}
use zk_ress.Primitives.{SealedHeader, Block, num_hash}
use zk_ress.Provider
use zk_ress.Tree.{EngineTree, set_canonical_head}
use zk_ress.Tree.Payload.{on_downloaded_block}
use zk_ress.Tree.Sound.{Justified, by_trust, IsSound, make_canonical-IsSound}
use zk_ress.Tree.Sound.Handlers.{on_downloaded_block-IsSound}

module _ {env : Env} (laws : IsLru env.lru) (trusted : Block env.Body → Type 0) where
  pub on_tree_event-IsSound :
      (event : TreeEvent) (this : ConsensusEngine env)
      → IsSound trusted this.tree
      → IsSound trusted (on_tree_event event this).tree
  unfolding on_tree_event
  on_tree_event-IsSound (download (DownloadRequest.block block_hash)) this v =
      elim (Bool-cases (contains_key block_hash this.tree.block_buffer.proofs)) [
        | inl known ↦ rw (known, on_tree_event) v
        | inr unknown ↦ rw (unknown, on_tree_event) v
      ]
  on_tree_event-IsSound (download (DownloadRequest.proof block_hash)) this v = v
  on_tree_event-IsSound (download (DownloadRequest.finalized block_hash)) this v = v
  on_tree_event-IsSound (tree_action (TreeAction.make_canonical head)) this v =
      make_canonical-IsSound laws trusted head this.tree v

  pub on_maybe_tree_event-IsSound :
      (event : Option TreeEvent) (this : ConsensusEngine env)
      → IsSound trusted this.tree
      → IsSound trusted (on_maybe_tree_event event this).tree
  unfolding on_maybe_tree_event
  on_maybe_tree_event-IsSound none this v = v
  on_maybe_tree_event-IsSound (some event) this v = on_tree_event-IsSound event this v

  unpark_tree :
      (hash : ℕ) (result : Result PayloadStatus env.Fatal) (this : ConsensusEngine env)
      → (unpark hash result this).tree ≡ this.tree
  unfolding unpark
  unpark_tree hash result this = elim (Option-cases this.parked_payload) [
    | inl free ↦ rw (free, unpark)
    | inr (parked, waits) ↦ elim (Bool-cases (parked.block_hash == hash)) [
      | inl same ↦ rw (waits, same, unpark)
      | inr other ↦ rw (waits, other, unpark)
    ]
  ]

  unlock_block-IsSound :
      (block : Block env.Body) (witness : env.Proof) (this : ConsensusEngine env)
      → IsSound trusted this.tree
      → IsSound trusted (unlock_block block witness this).tree
  unfolding unlock_block
  unlock_block-IsSound block witness this v =
      let (tree, result) = on_downloaded_block block witness this.tree in
      let acted = on_maybe_tree_event (event_of result) (with_tree tree this) in
      rw (unpark_tree block.hash (outcome_of result) acted) (
        on_maybe_tree_event-IsSound (event_of result) (with_tree tree this)
          (on_downloaded_block-IsSound laws trusted block witness this.tree v))

  unlock-IsSound :
      (hash : ℕ) (this : ConsensusEngine env)
      → IsSound trusted this.tree
      → IsSound trusted (unlock hash this).tree
  unfolding unlock
  unlock-IsSound hash this v =
      let buffer = (Buffer.remove_block hash this.tree.block_buffer).0 in
      let unlocked = with_tree (record this.tree { block_buffer = buffer }) this in
      let w : IsSound trusted unlocked.tree = record {
        justified = v.justified;
        consistent = v.consistent;
        buffered = remove_block-IsValid laws hash this.tree.block_buffer v.buffered;
      } in
      elim (Option-cases (Buffer.remove_block hash this.tree.block_buffer).1) [
        | inl kept ↦ rw (kept, unlock) w
        | inr (pair, removed) ↦ rw (removed, unlock) (unlock_block-IsSound pair.0 pair.1 unlocked w)
      ]

  insert_ancestors-IsSound :
      (hs : List SealedHeader) (tree : EngineTree env)
      → IsSound trusted tree
      → IsSound trusted (insert_ancestors hs tree)
  unfolding insert_ancestors Provider.insert_canonical_hash ChainState.insert_canonical_hash
  insert_ancestors-IsSound [] tree v = v
  insert_ancestors-IsSound (h ∷ hs) tree v =
      insert_ancestors-IsSound hs
        (record tree { provider = Provider.insert_canonical_hash h.number h.hash tree.provider })
        (record {
          justified = v.justified;
          consistent =
              insert_canonical_hash-IsConsistent h.number h.hash tree.provider.chain_state
                v.consistent;
          buffered = v.buffered;
        })

  adopt_finalized-IsSound :
      (block : Block env.Body) (ancestors : List SealedHeader) (tree : EngineTree env)
      → trusted block
      → Agrees block tree.provider.chain_state
      → IsSound trusted tree
      → IsSound trusted (adopt_finalized block ancestors tree)
  unfolding adopt_finalized Provider.insert_canonical_hash Provider.insert_block set_canonical_head
      ChainState.insert_canonical_hash ChainState.insert_block
  adopt_finalized-IsSound block ancestors tree safe agrees v =
      insert_ancestors-IsSound ancestors
        (record tree {
          canonical_head = num_hash block.header;
          provider =
              Provider.insert_block block none
                (Provider.insert_canonical_hash block.number block.hash tree.provider);
        })
        (record {
          justified = added;
          consistent = insert_block-IsConsistent block none _ agrees (
              insert_canonical_hash-IsConsistent block.number block.hash tree.provider.chain_state
                v.consistent);
          buffered = v.buffered;
        })
    where
      added :
          (h : ℕ) (b : Block env.Body)
          → lookup h
              (Provider.insert_block block none (
                Provider.insert_canonical_hash block.number block.hash
                  tree.provider)).chain_state.blocks_by_hash
            ≡ some b
          → Justified env trusted b
      added h b e = elim (Bool-cases (block.hash == h)) [
        | inl same ↦
            let is_block : block ≡ b = ground (
              arith,
              lookup-insert block.hash h block tree.provider.chain_state.blocks_by_hash,
              e,
            ) in
            rw (← is_block) (by_trust safe)
        | inr other ↦ v.justified h b (
            ground
              (arith, lookup-insert block.hash h block tree.provider.chain_state.blocks_by_hash, e))
      ]

  -- What is asked of a finalized block that the downloader hands over: the engine stores it without a
  -- proof, so it is trusted; and a block that is stored under its hash has its number.
  abbrev pub Trusts : DownloadData env.Body env.Proof → EngineTree env → Type 0
  Trusts (finalized_block block ancestors) tree =
      trusted block × Agrees block tree.provider.chain_state
  Trusts (full_block block) tree = Unit
  Trusts (proof hash witness) tree = Unit

  abbrev pub TrustsSome : Option (DownloadData env.Body env.Proof) → EngineTree env → Type 0
  TrustsSome none tree = Unit
  TrustsSome (some outcome) tree = Trusts outcome tree

  pub on_download_outcome-IsSound :
      (outcome : DownloadData env.Body env.Proof) (this : ConsensusEngine env)
      → Trusts outcome this.tree
      → IsSound trusted this.tree
      → IsSound trusted (on_download_outcome outcome this).0.tree
  unfolding on_download_outcome
  on_download_outcome-IsSound (finalized_block block ancestors) this (safe, agrees) v =
      elim (Bool-cases (env.try_recover block)) [
        | inl signed ↦
            rw (signed, on_download_outcome)
              (unlock-IsSound block.hash
                (with_tree (adopt_finalized block ancestors this.tree) this)
                (adopt_finalized-IsSound block ancestors this.tree safe agrees v))
        | inr unsigned ↦ rw (unsigned, on_download_outcome) v
      ]
  on_download_outcome-IsSound (full_block block) this t v =
      elim (Bool-cases (env.try_recover block)) [
        | inl signed ↦
            rw (signed, on_download_outcome)
              (unlock-IsSound block.hash
                (with_tree
                  (record this.tree {
                    block_buffer = Buffer.insert_block block this.tree.block_buffer;
                  })
                  this)
                (record {
                  justified = v.justified;
                  consistent = v.consistent;
                  buffered = insert_block-IsValid laws block this.tree.block_buffer v.buffered;
                }))
        | inr unsigned ↦ rw (unsigned, on_download_outcome) v
      ]
  on_download_outcome-IsSound (proof block_hash witness) this t v =
      unlock-IsSound block_hash
        (with_tree
          (record this.tree {
            block_buffer = Buffer.insert_proof block_hash witness this.tree.block_buffer;
          })
          this)
        (record {
          justified = v.justified;
          consistent = v.consistent;
          buffered = insert_proof-IsValid laws block_hash witness this.tree.block_buffer v.buffered;
        })
