-- ===== src/Engine/Sound.antt =====
-- crates/engine/src/engine.rs: the engine keeps the tree's invariant.
pub mod Downloads
use zk_ress.Base.{
  ℕ, ◌≡◌, Bool, true, false, List, [], ◌∷◌, Option, none, some, arith, ◌==◌, Option-cases,
  Bool-cases, inl, inr, is_some, if◌then◌else◌,
}
use zk_ress.Base.Maps.{lookup, lookup-insert, contains_key}
use zk_ress.Buffer
use zk_ress.Buffer.Insert.{insert_block-IsValid}
use zk_ress.Buffer.Invariant.{remove_block-IsValid, remove_proof-IsValid, insert_proof-IsValid}
use zk_ress.Buffer.Lru.{IsLru}
use zk_ress.ChainState
use zk_ress.ChainState.Invariant.{
  Agrees, insert_block-IsConsistent, insert_canonical_hash-IsConsistent,
}
use zk_ress.Download.Downloader.{DownloadData, full_block, proof, finalized_block}
use zk_ress.Engine.{
  Message, new_payload, forkchoice_update, ConsensusEngine, event_of, outcome_of, on_tree_event,
  on_maybe_tree_event, unpark, unlock_block, unlock, insert_ancestors, adopt_finalized,
  on_download_outcome, answer_payload, on_payload_message, track, on_engine_message, time_out,
  is_syncing, with_tree,
}
use zk_ress.Engine.Poll.{Round, poll_messages, poll_parked, poll_round}
use zk_ress.Env.{Env, Result, ok, err, PayloadStatus, OnForkChoiceUpdated, ForkchoiceState}
use zk_ress.Outcome.{
  TreeEvent, tree_action, download, TreeAction, DownloadRequest, TreeOutcome, as_proof_download,
  download_proof,
}
use zk_ress.Primitives.{SealedHeader, Block, num_hash}
use zk_ress.Provider
use zk_ress.Tree.{EngineTree, set_canonical_head}
use zk_ress.Tree.Forkchoice.{HeaderNotFound, on_forkchoice_updated}
use zk_ress.Tree.Payload.{on_new_payload, on_downloaded_block}
use zk_ress.Tree.Sound.{Justified, by_trust, IsSound, make_canonical-IsSound}
use zk_ress.Tree.Sound.Handlers.{
  on_new_payload-IsSound, on_downloaded_block-IsSound, on_forkchoice_updated-IsSound,
}
use zk_ress.Engine.Sound.Downloads.{
  TrustsSome, on_tree_event-IsSound, on_maybe_tree_event-IsSound, on_download_outcome-IsSound,
}

module _ {env : Env} (laws : IsLru env.lru) (trusted : Block env.Body → Type 0) where
  completed-IsSound :
      (has_proof : Bool) (event : TreeEvent) (block_hash : ℕ) (this : ConsensusEngine env)
      → IsSound trusted this.tree
      → IsSound trusted
          (if has_proof
            then on_tree_event event this
            else on_tree_event (download_proof block_hash) (on_tree_event event this)).tree
  completed-IsSound true event block_hash this v = on_tree_event-IsSound laws trusted event this v
  completed-IsSound false event block_hash this v =
      on_tree_event-IsSound laws trusted (download_proof block_hash) (on_tree_event event this)
        (on_tree_event-IsSound laws trusted event this v)

  answer_payload-IsSound :
      (block_hash : ℕ) (has_proof : Bool) (tx : ℕ)
      (result : Result (TreeOutcome PayloadStatus) env.Fatal) (this : ConsensusEngine env)
      → IsSound trusted this.tree
      → IsSound trusted (answer_payload block_hash has_proof tx result this).tree
  unfolding answer_payload
  answer_payload-IsSound block_hash has_proof tx (err fatal) this v = v
  answer_payload-IsSound block_hash has_proof tx (ok outcome) this v =
      elim (Option-cases outcome.event) [
        | inl quiet ↦ rw (quiet, answer_payload) v
        | inr (event, told) ↦
            let w = on_tree_event-IsSound laws trusted event this v in
            let w' = completed-IsSound has_proof event block_hash this v in
            elim (Option-cases (as_proof_download event)) [
              | inl other ↦ rw (told, answer_payload, other) w'
              | inr (wanted, asked) ↦ elim (Bool-cases (is_syncing outcome.outcome)) [
                | inl waits ↦ rw (told, answer_payload, asked, waits) w
                | inr ready ↦ rw (told, answer_payload, asked, ready) w'
              ]
            ]
      ]

  track-IsSound :
      (state : ForkchoiceState) (result : Result (TreeOutcome OnForkChoiceUpdated) HeaderNotFound)
      (this : ConsensusEngine env)
      → IsSound trusted this.tree
      → IsSound trusted (track state result this).tree
  unfolding track
  track-IsSound state (err e) this v = v
  track-IsSound state (ok outcome) this v =
      on_maybe_tree_event-IsSound laws trusted outcome.event _ v

  on_engine_message-IsSound :
      (message : Message env) (this : ConsensusEngine env)
      → IsSound trusted this.tree
      → IsSound trusted (on_engine_message message this).tree
  unfolding on_engine_message on_payload_message
  on_engine_message-IsSound (new_payload payload tx) this v =
      let hash = env.payload_block_hash payload in
      let tree = record this.tree {
        block_buffer = Buffer.remove_proof hash this.tree.block_buffer;
      } in
      let maybe_proof = Buffer.proof this.tree.block_buffer hash in
      let (after, result) = on_new_payload payload maybe_proof tree in
      answer_payload-IsSound hash _ tx result (with_tree after this) (
        on_new_payload-IsSound laws trusted payload maybe_proof tree (record {
          justified = v.justified;
          consistent = v.consistent;
          buffered = remove_proof-IsValid laws hash this.tree.block_buffer v.buffered;
        }))
  on_engine_message-IsSound (forkchoice_update state attrs version tx) this v =
      let (tree, result) = on_forkchoice_updated state attrs version this.tree in
      track-IsSound state result (with_tree tree this)
        (on_forkchoice_updated-IsSound laws trusted state attrs version this.tree v)

  poll_messages-IsSound :
      (message : Option (Message env)) (this : ConsensusEngine env)
      → IsSound trusted this.tree
      → IsSound trusted (poll_messages message this).0.tree
  unfolding poll_messages
  poll_messages-IsSound none this v = v
  poll_messages-IsSound (some message) this v = on_engine_message-IsSound message this v

  time_out_tree : (this : ConsensusEngine env) → (time_out this).tree ≡ this.tree
  unfolding time_out
  time_out_tree this = elim (Option-cases this.parked_payload) [
    | inl free ↦ rw (free, time_out)
    | inr (parked, waits) ↦ rw (waits, time_out)
  ]

  poll_parked-IsSound :
      (round : Round env) (this : ConsensusEngine env)
      → IsSound trusted this.tree
      → IsSound trusted (poll_parked round this).0.tree
  unfolding poll_parked
  poll_parked-IsSound round this v = elim (Bool-cases (is_some this.parked_payload)) [
    | inr free ↦ rw (free, poll_parked) (poll_messages-IsSound round.message this v)
    | inl waits ↦ elim (Bool-cases round.timed_out) [
      | inl late ↦
          rw (waits, poll_parked, late)
            (poll_messages-IsSound round.message (time_out this) (rw (time_out_tree this) v))
      | inr early ↦ rw (waits, poll_parked, early) v
    ]
  ]

  -- With an LruMap that keeps its documented laws, whatever a round of the engine finds (an
  -- outcome of the downloader, a timeout, a message), afterwards every stored block is trusted or
  -- was validated and accepted by the verifier with a proof against its stored parent, the indices
  -- of the chain state agree with its blocks, and in the buffer each block is stored under its own
  -- hash and listed under its number, and the recency list holds exactly the stored hashes and no
  -- more than its limit, if that held before and a downloaded finalized block is trusted and has
  -- the number of a stored block of the same hash.
  pub poll_round-IsSound :
      (round : Round env) (this : ConsensusEngine env)
      → TrustsSome laws trusted round.downloaded this.tree
      → IsSound trusted this.tree
      → IsSound trusted (poll_round round this).0.tree
  unfolding poll_round
  poll_round-IsSound round this safe v = elim (Option-cases round.downloaded) [
    | inl quiet ↦ rw (quiet, poll_round) (poll_parked-IsSound round this v)
    | inr (outcome, came) ↦
        rw (came, poll_round)
          (on_download_outcome-IsSound laws trusted outcome this (rw (came) at safe) v)
  ]
