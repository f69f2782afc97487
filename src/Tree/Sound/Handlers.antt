-- ===== src/Tree/Sound/Handlers.antt =====
-- crates/engine/src/tree/mod.rs: the handlers keep the tree's invariant.
use zk_ress.Base.{ℕ, ◌≡◌, refl, Option, some, ◌==◌, Option-cases, Bool-cases, inl, inr}
use zk_ress.Buffer.Lru.{IsLru}
use zk_ress.Env.{Env, Result, ok, err, InsertBlockErrorKind, ForkchoiceState}
use zk_ress.Primitives.{SealedHeader, Block, is_zero}
use zk_ress.Tree.{
  EngineTree, BlockStatus, InsertPayloadOk, already_seen, inserted, disconnected, no_proof,
  lowest_buffered_ancestor_or,
}
use zk_ress.Tree.Forkchoice.{
  pre_validate_forkchoice_update, ensure_consistent_forkchoice_state, on_head_update,
  on_validated_update, on_forkchoice_updated,
}
use zk_ress.Tree.Insert.{insert_block}
use zk_ress.Tree.Invalid.{
  check_invalid_ancestor, check_invalid_ancestor_with_head, latest_valid_hash_for_invalid_payload,
  on_insert_block_error,
}
use zk_ress.Tree.NewHead.{NewCanonicalChain, tip, on_new_head, on_canonical_chain_update}
use zk_ress.Tree.Payload.{
  reply_error, payload_connected, download_connected, payload_reply, download_reply,
  payload_ancestor, on_block_payload, on_malformed_payload, on_new_payload, on_downloaded_block,
}
use zk_ress.Tree.Sound.{
  IsSound, KeepsStores-IsSound, on_insert_block_error-KeepsStores, latest_valid_hash-KeepsStores,
  check_invalid_ancestor-KeepsStores, check_invalid_ancestor_with_head-KeepsStores,
  on_canonical_chain_update-IsSound, clean_up-IsSound,
}
use zk_ress.Tree.Sound.Connect.{try_connect_buffered_blocks-IsSound}
use zk_ress.Tree.Sound.Insert.{insert_block-IsSound}

module _ {env : Env} (laws : IsLru env.lru) (trusted : Block env.Body → Type 0) where
  payload_reply-IsSound :
      (block : Block env.Body) (result : Result InsertPayloadOk (InsertBlockErrorKind env.Error))
      (tree : EngineTree env)
      → IsSound trusted tree
      → IsSound trusted (payload_reply block result tree).0
  unfolding payload_reply payload_connected reply_error
  payload_reply-IsSound block (ok (inserted BlockStatus.valid)) tree v =
      try_connect_buffered_blocks-IsSound laws trusted block.hash tree v
  payload_reply-IsSound block (ok already_seen) tree v =
      try_connect_buffered_blocks-IsSound laws trusted block.hash tree v
  payload_reply-IsSound block (ok (inserted (disconnected head missing))) tree v = v
  payload_reply-IsSound block (ok (inserted no_proof)) tree v = v
  payload_reply-IsSound block (err kind) tree v =
      KeepsStores-IsSound laws trusted tree (on_insert_block_error block kind tree).0
        (on_insert_block_error-KeepsStores block kind tree) v

  download_reply-IsSound :
      (block : Block env.Body) (result : Result InsertPayloadOk (InsertBlockErrorKind env.Error))
      (tree : EngineTree env)
      → IsSound trusted tree
      → IsSound trusted (download_reply block result tree).0
  unfolding download_reply download_connected reply_error
  download_reply-IsSound block (ok (inserted BlockStatus.valid)) tree v =
      try_connect_buffered_blocks-IsSound laws trusted block.hash tree v
  download_reply-IsSound block (ok already_seen) tree v = v
  download_reply-IsSound block (ok (inserted (disconnected head missing))) tree v = v
  download_reply-IsSound block (ok (inserted no_proof)) tree v = v
  download_reply-IsSound block (err kind) tree v =
      KeepsStores-IsSound laws trusted tree (on_insert_block_error block kind tree).0
        (on_insert_block_error-KeepsStores block kind tree) v

  -- The check for invalid ancestors that both handlers begin with.
  checked-IsSound :
      (check head : ℕ) (tree : EngineTree env)
      → IsSound trusted tree
      → IsSound trusted (check_invalid_ancestor_with_head check head tree).0
  checked-IsSound check head tree v =
      KeepsStores-IsSound laws trusted tree (check_invalid_ancestor_with_head check head tree).0
        (check_invalid_ancestor_with_head-KeepsStores check head tree) v

  on_block_payload-IsSound :
      (block : Block env.Body) (maybe_proof : Option env.Proof) (tree : EngineTree env)
      → IsSound trusted tree
      → IsSound trusted (on_block_payload block maybe_proof tree).0
  unfolding on_block_payload
  on_block_payload-IsSound block maybe_proof tree v =
      let w = checked-IsSound (payload_ancestor tree block) block.hash tree v in
      let checked =
        (check_invalid_ancestor_with_head (payload_ancestor tree block) block.hash tree).0 in
      let (after, result) = insert_block block maybe_proof checked in
      elim (Option-cases
        (check_invalid_ancestor_with_head (payload_ancestor tree block) block.hash tree).1) [
          | inr (status, known) ↦ rw (known, on_block_payload) w
          | inl unknown ↦
              rw (unknown, on_block_payload)
                (payload_reply-IsSound block result after
                  (insert_block-IsSound laws trusted block maybe_proof checked w))
        ]

  on_malformed_payload-IsSound :
      (parent_hash : ℕ) (error : env.PayloadError) (tree : EngineTree env)
      → IsSound trusted tree
      → IsSound trusted (on_malformed_payload parent_hash error tree).0
  unfolding on_malformed_payload
  on_malformed_payload-IsSound parent_hash error tree v =
      let w =
        KeepsStores-IsSound laws trusted tree
          (latest_valid_hash_for_invalid_payload parent_hash tree).0
          (latest_valid_hash-KeepsStores parent_hash tree) v in
      elim (Bool-cases (env.is_block_hash_mismatch error)) [
        | inl mismatch ↦ rw (mismatch, on_malformed_payload) v
        | inr well ↦ elim (Bool-cases (env.is_invalid_versioned_hashes error)) [
          | inl versioned ↦ rw (well, versioned, on_malformed_payload) v
          | inr other ↦ rw (well, other, on_malformed_payload) w
        ]
      ]

  -- With an LruMap that keeps its documented laws, a new payload, with or without a proof, well
  -- formed or not, keeps through the insertion and the buffered blocks that it connects that each
  -- stored block is trusted or was accepted by the verifier with a proof against its stored
  -- parent, that the indices of the chain state agree with its blocks, and that in the buffer each
  -- block is stored under its own hash and listed under its number, and the recency list holds
  -- exactly the stored hashes and no more than its limit.
  pub on_new_payload-IsSound :
      (payload : env.Payload) (maybe_proof : Option env.Proof) (tree : EngineTree env)
      → IsSound trusted tree
      → IsSound trusted (on_new_payload payload maybe_proof tree).0
  unfolding on_new_payload
  on_new_payload-IsSound payload maybe_proof tree v =
      by_result (env.ensure_well_formed_payload payload) refl
    where
      by_result :
          (r : Result (Block env.Body) env.PayloadError)
          → env.ensure_well_formed_payload payload ≡ r
          → IsSound trusted (on_new_payload payload maybe_proof tree).0
      by_result (ok block) e =
          rw (e, on_new_payload) (on_block_payload-IsSound block maybe_proof tree v)
      by_result (err error) e =
          rw (e, on_new_payload)
            (on_malformed_payload-IsSound (env.payload_parent_hash payload) error tree v)

  -- With an LruMap that keeps its documented laws, a downloaded block with its proof keeps the
  -- invariant of the tree, through the insertion and the buffered blocks that it connects.
  pub on_downloaded_block-IsSound :
      (block : Block env.Body) (p : env.Proof) (tree : EngineTree env)
      → IsSound trusted tree
      → IsSound trusted (on_downloaded_block block p tree).0
  unfolding on_downloaded_block
  on_downloaded_block-IsSound block p tree v =
      let w = checked-IsSound (lowest_buffered_ancestor_or tree block.hash) block.hash tree v in
      let checked =
        (check_invalid_ancestor_with_head (lowest_buffered_ancestor_or tree block.hash) block.hash
          tree).0 in
      let (after, result) = insert_block block (some p) checked in
      elim (Option-cases
        (check_invalid_ancestor_with_head (lowest_buffered_ancestor_or tree block.hash) block.hash
          tree).1) [
            | inr (status, known) ↦ rw (known, on_downloaded_block) w
            | inl unknown ↦
                rw (unknown, on_downloaded_block)
                  (download_reply-IsSound block result after
                    (insert_block-IsSound laws trusted block (some p) checked w))
          ]

  on_head_update-IsSound :
      (update : NewCanonicalChain) (head : SealedHeader) (state : ForkchoiceState)
      (attrs : Option env.Attributes) (version : env.Version) (tree : EngineTree env)
      → IsSound trusted tree
      → IsSound trusted (on_head_update update head state attrs version tree).0
  unfolding on_head_update
  on_head_update-IsSound update head state attrs version tree v =
      let w = on_canonical_chain_update-IsSound laws trusted update tree v in
      elim (Option-cases
        (ensure_consistent_forkchoice_state state (on_canonical_chain_update update tree))) [
          | inr (status, refused) ↦ rw (refused, on_head_update) w
          | inl passed ↦
              rw (passed, on_head_update)
                (clean_up-IsSound laws trusted state.finalized_block_hash
                  (on_canonical_chain_update update tree) w)
        ]

  on_validated_update-IsSound :
      (state : ForkchoiceState) (attrs : Option env.Attributes) (version : env.Version)
      (tree : EngineTree env)
      → IsSound trusted tree
      → IsSound trusted (on_validated_update state attrs version tree).0
  unfolding on_validated_update
  on_validated_update-IsSound state attrs version tree v =
      elim (Bool-cases (tree.canonical_head.hash == state.head_block_hash)) [
        | inl same ↦ rw (same, on_validated_update) v
        | inr other ↦
            elim (Option-cases
              (on_new_head tree.provider tree.canonical_head state.head_block_hash)) [
                | inl lost ↦ rw (other, lost, on_validated_update) v
                | inr (update, led) ↦ elim (Option-cases (tip update)) [
                  | inl empty ↦ rw (other, led, empty, on_validated_update) v
                  | inr (head, is_tip) ↦
                      rw (other, led, is_tip, on_validated_update)
                        (on_head_update-IsSound update head state attrs version tree v)
                ]
              ]
      ]

  pre_validate-IsSound :
      (state : ForkchoiceState) (tree : EngineTree env)
      → IsSound trusted tree
      → IsSound trusted (pre_validate_forkchoice_update state tree).0
  unfolding pre_validate_forkchoice_update
  pre_validate-IsSound state tree v = elim (Bool-cases (is_zero state.head_block_hash)) [
    | inl zeroed ↦ rw (zeroed, pre_validate_forkchoice_update) v
    | inr given ↦
        rw (given, pre_validate_forkchoice_update)
          (KeepsStores-IsSound laws trusted tree
            (check_invalid_ancestor (lowest_buffered_ancestor_or tree state.head_block_hash) tree).0
            (check_invalid_ancestor-KeepsStores
              (lowest_buffered_ancestor_or tree state.head_block_hash) tree)
            v)
  ]

  -- With an LruMap that keeps its documented laws, a forkchoice update, its clean-up included,
  -- keeps the invariant: each stored block is trusted or was accepted by the verifier with a proof
  -- against its stored parent, the indices of the chain state agree with its blocks, and in the
  -- buffer each block is stored under its own hash and listed under its number, and the recency
  -- list holds exactly the stored hashes and no more than its limit.
  pub on_forkchoice_updated-IsSound :
      (state : ForkchoiceState) (attrs : Option env.Attributes) (version : env.Version)
      (tree : EngineTree env)
      → IsSound trusted tree
      → IsSound trusted (on_forkchoice_updated state attrs version tree).0
  unfolding on_forkchoice_updated
  on_forkchoice_updated-IsSound state attrs version tree v =
      let w = pre_validate-IsSound state tree v in
      elim (Option-cases (pre_validate_forkchoice_update state tree).1) [
        | inr (status, refused) ↦ rw (refused, on_forkchoice_updated) w
        | inl passed ↦
            rw (passed, on_forkchoice_updated)
              (on_validated_update-IsSound state attrs version
                (pre_validate_forkchoice_update state tree).0 w)
      ]
