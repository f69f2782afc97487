-- ===== src/Tree/Insert.antt =====
-- crates/engine/src/tree/mod.rs: inserting a block into the tree, and the buffered blocks behind it.
use zk_ress.Base.{
  ℕ, Bool, true, false, List, [], ◌∷◌, Option, none, some, if◌then◌else◌, unwrap_or, map_option,
  ◌&&◌,
}
use zk_ress.Buffer
use zk_ress.Buffer.Descendants.{remove_block_with_children}
use zk_ress.Env.{Env, Result, ok, err, VerifierError, InsertBlockErrorKind}
use zk_ress.Primitives.{SealedHeader, Block, parent_num_hash}
use zk_ress.Provider
use zk_ress.Tree.{
  EngineTree, fork_block_added, canonical_block_added, valid, no_proof, disconnected,
  InsertPayloadOk, already_seen, inserted, stored, emit_event, is_sync_target_head,
}
use zk_ress.Tree.Invalid.{on_insert_block_error}
use zk_ress.Tree.NewHead.{is_fork, make_canonical}

-- The `map_err` of `insert_block`.
unfoldable pub kind_of : {E : Type 0} → VerifierError E → InsertBlockErrorKind E
kind_of (VerifierError.consensus e) = InsertBlockErrorKind.consensus e
kind_of (VerifierError.execution e) = InsertBlockErrorKind.execution e
kind_of (VerifierError.provider e) = InsertBlockErrorKind.provider e
kind_of (VerifierError.other e) = InsertBlockErrorKind.other e

-- `matches!(result, InsertPayloadOk::Inserted(BlockStatus::Valid))`
abbrev pub is_inserted_valid : InsertPayloadOk → Bool
is_inserted_valid (inserted valid) = true
is_inserted_valid _ = false

unfoldable pub validate_block : (env : Env) → Block env.Body → Option env.Error
validate_block env block = elim (env.validate_header block.header) [
  | some e ↦ some e
  | none ↦ env.validate_block_pre_execution block
]

module _ {env : Env} where
  -- The proof, if there is one, goes to the buffer under the block's hash.
  unfoldable pub buffer_proof : ℕ → Option env.Proof → EngineTree env → EngineTree env
  unfolding Buffer.insert_proof
  buffer_proof hash none tree = tree
  buffer_proof hash (some p) tree = record tree {
    block_buffer = Buffer.insert_proof hash p tree.block_buffer;
  }

  unfoldable pub buffer_block : Block env.Body → EngineTree env → EngineTree env
  unfolding Buffer.insert_block
  buffer_block block tree = record tree {
    block_buffer = Buffer.insert_block block tree.block_buffer;
  }

  -- `insert_block` without the parent: the block and its proof go to the buffer.
  unfoldable pub buffer_disconnected :
      Block env.Body → Option env.Proof → EngineTree env → EngineTree env × InsertPayloadOk
  unfolding Buffer.lowest_ancestor buffer_proof buffer_block
  buffer_disconnected block maybe_proof tree =
      let ancestor =
        unwrap_or
          (map_option (λ b. parent_num_hash b.header)
            (Buffer.lowest_ancestor tree.block_buffer block.parent_hash))
          (parent_num_hash block.header) in
      (
        buffer_block block (buffer_proof block.hash maybe_proof tree),
        inserted (disconnected tree.canonical_head ancestor),
      )

  -- `insert_block` once the block is verified.
  unfoldable pub add_verified : Block env.Body → env.Proof → EngineTree env → EngineTree env
  unfolding Provider.insert_block is_fork emit_event
  add_verified block proof tree =
      let provider = Provider.insert_block block (some proof) tree.provider in
      emit_event
        (if is_fork provider tree.canonical_head block.hash
          then fork_block_added block
          else canonical_block_added block)
        (record tree { provider = provider })

  -- `insert_block` with the parent at hand.
  unfoldable pub insert_connected :
      Block env.Body
      → SealedHeader
      → Option env.Proof
      → EngineTree env
      → EngineTree env × Result InsertPayloadOk (InsertBlockErrorKind env.Error)
  unfolding buffer_block add_verified kind_of
  insert_connected block parent none tree = (buffer_block block tree, ok (inserted no_proof))
  insert_connected block parent (some proof) tree =
      elim (env.verify tree.provider block parent proof) [
        | some e ↦ (tree, err (kind_of e))
        | none ↦ (add_verified block proof tree, ok (inserted valid))
      ]

  -- `insert_block` behind the validation.
  unfoldable pub insert_validated :
      Block env.Body
      → Option env.Proof
      → EngineTree env
      → EngineTree env × Result InsertPayloadOk (InsertBlockErrorKind env.Error)
  unfolding buffer_disconnected insert_connected
  insert_validated block maybe_proof tree = elim (stored tree block.parent_hash) [
    | none ↦ let (after, status) = buffer_disconnected block maybe_proof tree in (after, ok status)
    | some parent ↦ insert_connected block parent maybe_proof tree
  ]

  unfoldable pub insert_block :
      Block env.Body
      → Option env.Proof
      → EngineTree env
      → EngineTree env × Result InsertPayloadOk (InsertBlockErrorKind env.Error)
  unfolding validate_block insert_validated
  insert_block block maybe_proof tree = elim (stored tree block.hash) [
    | some _ ↦ (tree, ok already_seen)
    | none ↦ elim (validate_block env block) [
      | some e ↦ (tree, err (InsertBlockErrorKind.consensus e))
      | none ↦ insert_validated block maybe_proof tree
    ]
  ]

  -- What follows from the insertion of one buffered block.
  unfoldable pub after_insert :
      Block env.Body
      → Result InsertPayloadOk (InsertBlockErrorKind env.Error)
      → EngineTree env
      → EngineTree env × Option env.Fatal
  unfolding is_sync_target_head make_canonical on_insert_block_error
  after_insert child (ok status) tree = (
    if is_sync_target_head tree child.hash && is_inserted_valid status
        then make_canonical child.hash tree
        else tree,
    none,
  )
  after_insert child (err kind) tree =
      let (marked, reply) = on_insert_block_error child kind tree in
      (marked, elim reply [ ok _ ↦ none | err fatal ↦ some fatal ])

  -- The loop body of `try_connect_buffered_blocks`.
  unfoldable pub connect_block :
      Block env.Body → env.Proof → EngineTree env → EngineTree env × Option env.Fatal
  unfolding insert_block after_insert
  connect_block child proof tree =
      let (after, result) = insert_block child (some proof) tree in after_insert child result after

  unfoldable pub connect_blocks :
      List (Block env.Body × env.Proof) → EngineTree env → EngineTree env × Option env.Fatal
  unfolding connect_block
  connect_blocks [] tree = (tree, none)
  connect_blocks ((child, proof) ∷ blocks) tree =
      let (after, failed) = connect_block child proof tree in
      let rest = connect_blocks blocks after in
      elim failed [ some fatal ↦ (after, some fatal) | none ↦ rest ]

  unfoldable pub try_connect_buffered_blocks :
      ℕ → EngineTree env → EngineTree env × Option env.Fatal
  unfolding remove_block_with_children connect_blocks
  try_connect_buffered_blocks parent_hash tree =
      let (buffer, blocks) = remove_block_with_children parent_hash tree.block_buffer in
      connect_blocks blocks (record tree { block_buffer = buffer })
