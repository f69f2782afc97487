-- ===== src/Tree/Payload.antt =====
-- crates/engine/src/tree/mod.rs: the handlers of a new payload and of a downloaded block.
use zk_ress.Base.{ℕ, ◌||◌, Option, none, some, ◌==◌, if◌then◌else◌}
use zk_ress.Env.{
  Env, Result, ok, err, PayloadStatus, valid, syncing, from_status, InsertBlockErrorKind,
}
use zk_ress.Outcome.{TreeEvent, TreeOutcome, download_block, download_proof, make_canonical_event}
use zk_ress.Primitives.{Block}
use zk_ress.Tree.{
  EngineTree, BlockStatus, InsertPayloadOk, already_seen, inserted, disconnected, no_proof,
  is_sync_target_head, lowest_buffered_ancestor_or,
}
use zk_ress.Tree.Insert.{insert_block, try_connect_buffered_blocks}
use zk_ress.Tree.Invalid.{
  latest_valid_hash_for_invalid_payload, check_invalid_ancestor_with_head, on_insert_block_error,
}

-- What both handlers return.
abbrev pub Reply : Env → Type 0
Reply env = EngineTree env × Result (TreeOutcome PayloadStatus) env.Fatal

abbrev pub valid_at : ℕ → PayloadStatus
valid_at hash = record { status = valid; latest_valid_hash = some hash }

-- `TreeOutcome::new`, and `with_event` if there is an event.
abbrev pub outcome_of : PayloadStatus → Option TreeEvent → TreeOutcome PayloadStatus
outcome_of status event = record { outcome = status; event = event }

module _ {env : Env} where
  -- The event for a block that was inserted and is the target of the sync.
  unfoldable pub canonical_event : ℕ → EngineTree env → Option TreeEvent
  unfolding is_sync_target_head
  canonical_event hash tree =
      if is_sync_target_head tree hash then some (make_canonical_event hash) else none

  -- The last match arm of both handlers.
  unfoldable pub reply_error :
      Block env.Body → InsertBlockErrorKind env.Error → EngineTree env → Reply env
  unfolding on_insert_block_error
  reply_error block kind tree =
      let (after, reply) = on_insert_block_error block kind tree in
      (after, elim reply [ ok status ↦ ok (outcome_of status none) | err fatal ↦ err fatal ])

  -- `on_new_payload`: a valid block or one already seen connects the blocks that wait for it.
  unfoldable pub payload_connected : ℕ → EngineTree env → Reply env
  unfolding try_connect_buffered_blocks canonical_event
  payload_connected hash tree =
      let (after, failed) = try_connect_buffered_blocks hash tree in
      (
        after,
        elim failed [
          | some fatal ↦ err fatal
          | none ↦ ok (outcome_of (valid_at hash) (canonical_event hash after))
        ],
      )

  -- `on_downloaded_block` asks for the event before it connects the waiting blocks.
  unfoldable pub download_connected : ℕ → EngineTree env → Reply env
  unfolding try_connect_buffered_blocks canonical_event
  download_connected hash tree =
      let (after, failed) = try_connect_buffered_blocks hash tree in
      (
        after,
        elim failed [
          | some fatal ↦ err fatal
          | none ↦ ok (outcome_of (valid_at hash) (canonical_event hash tree))
        ],
      )

  -- The arms for a block that has to wait.
  abbrev pub reply_disconnected : ℕ → EngineTree env → Reply env
  reply_disconnected missing tree =
      (tree, ok (outcome_of (from_status syncing) (some (download_block missing))))

  abbrev pub reply_no_proof : ℕ → EngineTree env → Reply env
  reply_no_proof hash tree =
      (tree, ok (outcome_of (from_status syncing) (some (download_proof hash))))

  unfoldable pub payload_reply :
      Block env.Body
      → Result InsertPayloadOk (InsertBlockErrorKind env.Error)
      → EngineTree env
      → Reply env
  unfolding payload_connected reply_error
  payload_reply block (ok (inserted BlockStatus.valid)) tree = payload_connected block.hash tree
  payload_reply block (ok already_seen) tree = payload_connected block.hash tree
  payload_reply block (ok (inserted (disconnected head missing))) tree =
      reply_disconnected missing.hash tree
  payload_reply block (ok (inserted no_proof)) tree = reply_no_proof block.hash tree
  payload_reply block (err kind) tree = reply_error block kind tree

  unfoldable pub download_reply :
      Block env.Body
      → Result InsertPayloadOk (InsertBlockErrorKind env.Error)
      → EngineTree env
      → Reply env
  unfolding download_connected reply_error
  download_reply block (ok (inserted BlockStatus.valid)) tree = download_connected block.hash tree
  download_reply block (ok already_seen) tree = (tree, ok (outcome_of (valid_at block.hash) none))
  download_reply block (ok (inserted (disconnected head missing))) tree =
      reply_disconnected missing.hash tree
  download_reply block (ok (inserted no_proof)) tree = reply_no_proof block.hash tree
  download_reply block (err kind) tree = reply_error block kind tree

  -- The ancestor whose validity decides on the payload's: the parent if nothing is buffered.
  unfoldable pub payload_ancestor : EngineTree env → Block env.Body → ℕ
  unfolding lowest_buffered_ancestor_or
  payload_ancestor tree block =
      let lowest = lowest_buffered_ancestor_or tree block.hash in
      if lowest == block.hash then block.parent_hash else lowest

  -- `on_new_payload` on a well-formed payload.
  unfoldable pub on_block_payload : Block env.Body → Option env.Proof → EngineTree env → Reply env
  unfolding payload_ancestor check_invalid_ancestor_with_head insert_block payload_reply
  on_block_payload block maybe_proof tree =
      let (checked, known_invalid) =
        check_invalid_ancestor_with_head (payload_ancestor tree block) block.hash tree in
      elim known_invalid [
        | some status ↦ (checked, ok (outcome_of status none))
        | none ↦
            let (after, result) = insert_block block maybe_proof checked in
            payload_reply block result after
      ]

  unfoldable pub on_malformed_payload : ℕ → env.PayloadError → EngineTree env → Reply env
  unfolding latest_valid_hash_for_invalid_payload
  on_malformed_payload parent_hash error tree =
      let (after, latest_valid_hash) =
        if env.is_block_hash_mismatch error || env.is_invalid_versioned_hashes error
        then (tree, none)
        else latest_valid_hash_for_invalid_payload parent_hash tree in
      (
        after,
        ok (
            outcome_of
              (record {
                status = env.status_from_error error;
                latest_valid_hash = latest_valid_hash;
              })
              none),
      )

  unfoldable pub on_new_payload : env.Payload → Option env.Proof → EngineTree env → Reply env
  unfolding on_block_payload on_malformed_payload
  on_new_payload payload maybe_proof tree = elim (env.ensure_well_formed_payload payload) [
    | ok block ↦ on_block_payload block maybe_proof tree
    | err error ↦ on_malformed_payload (env.payload_parent_hash payload) error tree
  ]

  unfoldable pub on_downloaded_block : Block env.Body → env.Proof → EngineTree env → Reply env
  unfolding lowest_buffered_ancestor_or check_invalid_ancestor_with_head insert_block download_reply
  on_downloaded_block block proof tree =
      let (checked, known_invalid) =
        check_invalid_ancestor_with_head (lowest_buffered_ancestor_or tree block.hash) block.hash
          tree in
      elim known_invalid [
        | some status ↦ (checked, ok (outcome_of status none))
        | none ↦
            let (after, result) = insert_block block (some proof) checked in
            download_reply block result after
      ]
