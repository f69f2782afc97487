-- ===== src/Engine.antt =====
-- crates/engine/src/engine.rs: `ConsensusEngine`, which drives the tree and the downloader. Metrics
-- and log lines are left out; a reply channel is a number, and the replies sent are recorded.
pub mod Poll
pub mod Channels
pub mod Sound
use zk_ress.Base.{
  ℕ, Bool, true, false, List, [], ◌∷◌, Option, none, some, ◌==◌, if◌then◌else◌, is_some,
}
use zk_ress.Base.Maps.{contains_key}
use zk_ress.Buffer
use zk_ress.Download.Downloader
use zk_ress.Download.Downloader.{EngineDownloader, DownloadData, full_block, proof, finalized_block}
use zk_ress.Env.{
  Env, Result, ok, err, PayloadStatus, syncing, from_status, OnForkChoiceUpdated, ForkchoiceState,
}
use zk_ress.Outcome.{
  TreeEvent, tree_action, download, TreeAction, DownloadRequest, TreeOutcome, download_proof,
  as_proof_download,
}
use zk_ress.Primitives.{SealedHeader, Block, num_hash}
use zk_ress.Provider
use zk_ress.Provider.{ZkRessProvider}
use zk_ress.Tree
use zk_ress.Tree.{EngineTree, forkchoice_updated, emit_event, set_canonical_head}
use zk_ress.Tree.Forkchoice.{HeaderNotFound, on_forkchoice_updated}
use zk_ress.Tree.NewHead.{make_canonical}
use zk_ress.Tree.Payload.{on_new_payload, on_downloaded_block}

-- `ParkedPayload`, without its times.
pub record ParkedPayload : Type 0 where
  pub block_hash : ℕ
  pub tx : ℕ

pub data Reply (F : Type 0) : Type 0 where
  payload_status : ℕ → Result PayloadStatus F → Reply F
  forkchoice_status : ℕ → Result OnForkChoiceUpdated HeaderNotFound → Reply F

-- `BeaconEngineMessage`
pub data Message (env : Env) : Type 0 where
  new_payload : env.Payload → ℕ → Message env
  forkchoice_update : ForkchoiceState → Option env.Attributes → env.Version → ℕ → Message env

pub record ConsensusEngine (env : Env) : Type 0 where
  pub tree : EngineTree env
  pub downloader : EngineDownloader env.Body env.Proof
  pub parked_payload : Option ParkedPayload
  -- The replies sent so far, the latest first.
  pub replies : List (Reply env.Fatal)

-- `outcome.is_syncing()`
abbrev pub is_syncing : PayloadStatus → Bool
is_syncing s = elim s.status [ syncing ↦ true | _ ↦ false ]

-- `result.map(|o| o.outcome)`, and the event that the result carries.
abbrev pub outcome_of {ℓ} : {T : Type 0} {F : Type ℓ} → Result (TreeOutcome T) F → Result T F
outcome_of (ok o) = ok o.outcome
outcome_of (err e) = err e

abbrev pub event_of {ℓ} : {T : Type 0} {F : Type ℓ} → Result (TreeOutcome T) F → Option TreeEvent
event_of (ok o) = o.event
event_of (err e) = none

module _ {env : Env} where
  unfoldable pub new : ZkRessProvider env.Body env.Proof → ConsensusEngine env
  unfolding Tree.new Downloader.new
  new provider = record {
    tree = Tree.new provider;
    downloader = Downloader.new;
    parked_payload = none;
    replies = [];
  }

  abbrev pub with_tree : EngineTree env → ConsensusEngine env → ConsensusEngine env
  with_tree tree this = record this { tree = tree }

  abbrev pub request_proof : ℕ → ConsensusEngine env → ConsensusEngine env
  request_proof block_hash this = record this {
    downloader = Downloader.download_proof block_hash this.downloader;
  }

  unfoldable pub on_tree_event : TreeEvent → ConsensusEngine env → ConsensusEngine env
  unfolding make_canonical
  on_tree_event (download (DownloadRequest.block block_hash)) this =
      let started = record this {
        downloader = Downloader.download_full_block block_hash this.downloader;
      } in
      if contains_key block_hash this.tree.block_buffer.proofs
      then started
      else request_proof block_hash started
  on_tree_event (download (DownloadRequest.proof block_hash)) this = request_proof block_hash this
  on_tree_event (download (DownloadRequest.finalized block_hash)) this = record this {
    downloader = Downloader.download_finalized_with_ancestors block_hash this.downloader;
  }
  on_tree_event (tree_action (TreeAction.make_canonical sync_target_head)) this =
      with_tree (make_canonical sync_target_head this.tree) this

  unfoldable pub on_maybe_tree_event : Option TreeEvent → ConsensusEngine env → ConsensusEngine env
  unfolding on_tree_event
  on_maybe_tree_event none this = this
  on_maybe_tree_event (some event) this = on_tree_event event this

  unfoldable pub send : Reply env.Fatal → ConsensusEngine env → ConsensusEngine env
  send reply this = record this { replies = reply ∷ this.replies }

  -- The answer to a parked payload, if it waits for the block.
  unfoldable pub unpark :
      ℕ → Result PayloadStatus env.Fatal → ConsensusEngine env → ConsensusEngine env
  unfolding send
  unpark hash result this = elim this.parked_payload [
    | none ↦ this
    | some parked ↦
        if parked.block_hash == hash
        then send (payload_status parked.tx result) (record this { parked_payload = none })
        else this
  ]

  -- A block that has its proof goes through the tree.
  unfoldable pub unlock_block :
      Block env.Body → env.Proof → ConsensusEngine env → ConsensusEngine env
  unfolding on_downloaded_block on_maybe_tree_event unpark
  unlock_block block witness this =
      let (tree, result) = on_downloaded_block block witness this.tree in
      unpark block.hash (outcome_of result)
        (on_maybe_tree_event (event_of result) (with_tree tree this))

  -- The loop over the unlocked hashes, of which there is one.
  unfoldable pub unlock : ℕ → ConsensusEngine env → ConsensusEngine env
  unfolding Buffer.remove_block unlock_block
  unlock hash this =
      let (buffer, removed) = Buffer.remove_block hash this.tree.block_buffer in
      let unlocked = with_tree (record this.tree { block_buffer = buffer }) this in
      elim removed [ none ↦ unlocked | some (block, witness) ↦ unlock_block block witness unlocked ]

  unfoldable pub insert_ancestors : List SealedHeader → EngineTree env → EngineTree env
  insert_ancestors [] tree = tree
  insert_ancestors (h ∷ hs) tree =
      insert_ancestors hs
        (record tree { provider = Provider.insert_canonical_hash h.number h.hash tree.provider })

  unfoldable pub adopt_finalized :
      Block env.Body → List SealedHeader → EngineTree env → EngineTree env
  unfolding insert_ancestors set_canonical_head
  adopt_finalized block ancestors tree =
      let head = set_canonical_head (num_hash block.header) tree in
      insert_ancestors ancestors (record head {
        provider =
            Provider.insert_block block none
              (Provider.insert_canonical_hash block.number block.hash head.provider);
      })

  -- Beside the state stands the fatal error that ends the engine.
  unfoldable pub on_download_outcome :
      DownloadData env.Body env.Proof → ConsensusEngine env → ConsensusEngine env × Option env.Fatal
  unfolding adopt_finalized unlock
  on_download_outcome (finalized_block block ancestors) this =
      if env.try_recover block
      then (unlock block.hash (with_tree (adopt_finalized block ancestors this.tree) this), none)
      else (this, some env.sender_recovery_error)
  on_download_outcome (full_block block) this =
      if env.try_recover block
      then (
        unlock block.hash (
            with_tree
              (record this.tree { block_buffer = Buffer.insert_block block this.tree.block_buffer })
              this),
        none,
      )
      else (this, none)
  on_download_outcome (proof block_hash witness) this = (
    unlock block_hash (
        with_tree
          (record this.tree {
            block_buffer = Buffer.insert_proof block_hash witness this.tree.block_buffer;
          })
          this),
    none,
  )

  -- `NewPayload` once the tree has answered: with an event, the payload may be parked.
  unfoldable pub answer_payload :
      ℕ
      → Bool
      → ℕ
      → Result (TreeOutcome PayloadStatus) env.Fatal
      → ConsensusEngine env
      → ConsensusEngine env
  unfolding send
  answer_payload block_hash has_proof tx (err fatal) this =
      send (payload_status tx (err fatal)) this
  answer_payload block_hash has_proof tx (ok outcome) this = elim outcome.event [
    | none ↦ send (payload_status tx (ok outcome.outcome)) this
    | some event ↦
        let acted = on_tree_event event this in
        elim (as_proof_download event) [
          | none ↦
              send (payload_status tx (ok outcome.outcome))
                (if has_proof then acted else on_tree_event (download_proof block_hash) acted)
          | some wanted ↦
              if is_syncing outcome.outcome
              then record acted { parked_payload = some (record { block_hash = wanted; tx = tx }) }
              else send (payload_status tx (ok outcome.outcome))
                  (if has_proof then acted else on_tree_event (download_proof block_hash) acted)
        ]
  ]

  unfoldable pub on_payload_message : env.Payload → ℕ → ConsensusEngine env → ConsensusEngine env
  unfolding Buffer.proof Buffer.remove_proof on_new_payload answer_payload
  on_payload_message payload tx this =
      let block_hash = env.payload_block_hash payload in
      let maybe_proof = Buffer.proof this.tree.block_buffer block_hash in
      let (tree, result) = on_new_payload payload maybe_proof (record this.tree {
        block_buffer = Buffer.remove_proof block_hash this.tree.block_buffer;
      }) in
      answer_payload block_hash (is_some maybe_proof) tx result (with_tree tree this)

  -- The tracker and the listeners are told of an update that did not fail.
  unfoldable pub track :
      ForkchoiceState
      → Result (TreeOutcome OnForkChoiceUpdated) HeaderNotFound
      → ConsensusEngine env
      → ConsensusEngine env
  unfolding emit_event on_maybe_tree_event
  track state (err e) this = this
  track state (ok outcome) this =
      let status = env.forkchoice_status outcome.outcome in
      on_maybe_tree_event outcome.event (
        with_tree
          (emit_event (forkchoice_updated state status) (record this.tree {
            forkchoice_state_tracker =
                env.set_latest state status this.tree.forkchoice_state_tracker;
          }))
          this)

  unfoldable pub on_engine_message : Message env → ConsensusEngine env → ConsensusEngine env
  unfolding on_payload_message on_forkchoice_updated track send
  on_engine_message (new_payload payload tx) this = on_payload_message payload tx this
  on_engine_message (forkchoice_update state payload_attrs version tx) this =
      let (tree, result) = on_forkchoice_updated state payload_attrs version this.tree in
      send (forkchoice_status tx (outcome_of result)) (track state result (with_tree tree this))

  -- A parked payload whose time is up.
  unfoldable pub time_out : ConsensusEngine env → ConsensusEngine env
  unfolding send
  time_out this = elim this.parked_payload [
    | none ↦ this
    | some parked ↦
        send (payload_status parked.tx (ok (from_status syncing)))
          (record this { parked_payload = none })
  ]
