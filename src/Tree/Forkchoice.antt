-- ===== src/Tree/Forkchoice.antt =====
-- crates/engine/src/tree/mod.rs: the handler of a forkchoice update.
use zk_ress.Base.{ℕ, Bool, not, ◌&&◌, Option, none, some, ◌==◌, if◌then◌else◌}
use zk_ress.Buffer.Descendants.{evict_old_blocks}
use zk_ress.Env.{
  Env, Result, ok, err, syncing, from_status, OnForkChoiceUpdated, valid, with_invalid,
  invalid_state, invalid_payload_attributes, ForkchoiceState,
}
use zk_ress.Outcome
use zk_ress.Outcome.{TreeEvent, TreeOutcome, download_block, download_finalized}
use zk_ress.Primitives.{SealedHeader, is_zero}
use zk_ress.Provider
use zk_ress.Tree.{EngineTree, stored, is_block_persisted_or_buffered, lowest_buffered_ancestor_or}
use zk_ress.Tree.Invalid.{check_invalid_ancestor}
use zk_ress.Tree.NewHead.{NewCanonicalChain, tip, on_new_head, on_canonical_chain_update}
use zk_ress.Tree.Payload.{valid_at}

-- `ProviderError::HeaderNotFound`, the one error of the handler.
pub data HeaderNotFound : Type 0 where
  header_not_found : ℕ → HeaderNotFound

abbrev pub Updated : Env → Type 0
Updated env = EngineTree env × Result (TreeOutcome OnForkChoiceUpdated) HeaderNotFound

abbrev pub plain : OnForkChoiceUpdated → Result (TreeOutcome OnForkChoiceUpdated) HeaderNotFound
plain updated = ok (Outcome.new updated)

-- The reply to an update whose head is canonical, behind its last check.
abbrev pub reply_valid :
    Option OnForkChoiceUpdated → ℕ → Result (TreeOutcome OnForkChoiceUpdated) HeaderNotFound
reply_valid (some refused) head = plain refused
reply_valid none head = plain (valid (valid_at head))

module _ {env : Env} where
  unfoldable pub pre_validate_forkchoice_update :
      ForkchoiceState → EngineTree env → EngineTree env × Option OnForkChoiceUpdated
  unfolding lowest_buffered_ancestor_or check_invalid_ancestor
  pre_validate_forkchoice_update state tree =
      if is_zero state.head_block_hash
      then (tree, some invalid_state)
      else (let (after, status) =
            check_invalid_ancestor (lowest_buffered_ancestor_or tree state.head_block_hash) tree in
          (after, elim status [ none ↦ none | some s ↦ some (with_invalid s) ]))

  -- Whether a hash is given and not canonical.
  unfoldable pub is_not_canonical : EngineTree env → ℕ → Bool
  unfolding Provider.is_hash_canonical
  is_not_canonical tree hash =
      not (is_zero hash) && not (Provider.is_hash_canonical tree.provider hash)

  unfoldable pub ensure_consistent_forkchoice_state :
      ForkchoiceState → EngineTree env → Option OnForkChoiceUpdated
  unfolding is_not_canonical
  ensure_consistent_forkchoice_state state tree =
      if is_not_canonical tree state.finalized_block_hash
      then some invalid_state
      else if is_not_canonical tree state.safe_block_hash
      then some invalid_state
      else none

  unfoldable pub validate_payload_attributes :
      env.Attributes
      → SealedHeader
      → ForkchoiceState
      → env.Version
      → EngineTree env
      → Option OnForkChoiceUpdated
  validate_payload_attributes attrs head state version tree =
      if env.attributes_fit attrs head && env.attributes_build state.head_block_hash attrs version
      then none
      else some invalid_payload_attributes

  unfoldable pub check_attributes :
      Option env.Attributes
      → SealedHeader
      → ForkchoiceState
      → env.Version
      → EngineTree env
      → Option OnForkChoiceUpdated
  unfolding validate_payload_attributes
  check_attributes none head state version tree = none
  check_attributes (some attrs) head state version tree =
      validate_payload_attributes attrs head state version tree

  -- Step 1: the head is the canonical head.
  unfoldable pub on_current_head :
      ForkchoiceState
      → Option env.Attributes
      → env.Version
      → EngineTree env
      → Result (TreeOutcome OnForkChoiceUpdated) HeaderNotFound
  unfolding ensure_consistent_forkchoice_state validate_payload_attributes
  on_current_head state payload_attrs version tree =
      elim (ensure_consistent_forkchoice_state state tree) [
        | some refused ↦ plain refused
        | none ↦ elim payload_attrs [
          | none ↦ plain (valid (valid_at state.head_block_hash))
          | some attrs ↦ elim (stored tree tree.canonical_head.hash) [
            | none ↦ err (header_not_found state.head_block_hash)
            | some head ↦
                reply_valid (validate_payload_attributes attrs head state version tree)
                  state.head_block_hash
          ]
        ]
      ]

  -- The clean-up in step 2.
  unfoldable pub clean_up : ℕ → EngineTree env → EngineTree env
  unfolding Provider.on_finalized Provider.block_number evict_old_blocks
  clean_up finalized tree =
      let provider = Provider.on_finalized finalized tree.provider in
      elim (Provider.block_number provider finalized) [
        | none ↦ record tree { provider = provider }
        | some number ↦ record tree {
          provider = provider;
          block_buffer = evict_old_blocks number tree.block_buffer;
        }
      ]

  -- Step 2: the head becomes canonical.
  unfoldable pub on_head_update :
      NewCanonicalChain
      → SealedHeader
      → ForkchoiceState
      → Option env.Attributes
      → env.Version
      → EngineTree env
      → Updated env
  unfolding on_canonical_chain_update ensure_consistent_forkchoice_state clean_up check_attributes
  on_head_update chain_update head state payload_attrs version tree =
      let updated = on_canonical_chain_update chain_update tree in
      elim (ensure_consistent_forkchoice_state state updated) [
        | some refused ↦ (updated, plain refused)
        | none ↦
            let cleaned = clean_up state.finalized_block_hash updated in
            (
              cleaned,
              reply_valid (check_attributes payload_attrs head state version cleaned)
                  state.head_block_hash,
            )
      ]

  abbrev pub is_missing : EngineTree env → ℕ → Bool
  is_missing tree hash = not (is_zero hash) && not (is_block_persisted_or_buffered tree hash)

  -- Step 4: the target of the sync, if it has to be downloaded.
  unfoldable pub sync_event : ForkchoiceState → EngineTree env → Option TreeEvent
  unfolding is_block_persisted_or_buffered lowest_buffered_ancestor_or
  sync_event state tree =
      if is_missing tree state.finalized_block_hash
      then some (download_finalized state.finalized_block_hash)
      else (let target = lowest_buffered_ancestor_or tree (
            if is_missing tree state.safe_block_hash
            then state.safe_block_hash
            else state.head_block_hash) in
          if not (target == state.finalized_block_hash)
            && not (is_block_persisted_or_buffered tree target)
          then some (download_block target)
          else none)

  -- Steps 3 and 4: no chain leads to the head.
  unfoldable pub on_unknown_head :
      ForkchoiceState → EngineTree env → Result (TreeOutcome OnForkChoiceUpdated) HeaderNotFound
  unfolding sync_event
  on_unknown_head state tree = elim (stored tree state.head_block_hash) [
    | some _ ↦ plain (valid (valid_at state.head_block_hash))
    | none ↦ ok (record { outcome = valid (from_status syncing); event = sync_event state tree })
  ]

  -- The handler behind its validation. The `none` of `tip` is the panic on an empty chain, which no
  -- result of `on_new_head` is.
  unfoldable pub on_validated_update :
      ForkchoiceState → Option env.Attributes → env.Version → EngineTree env → Updated env
  unfolding on_current_head on_new_head tip on_head_update on_unknown_head
  on_validated_update state payload_attrs version tree =
      if tree.canonical_head.hash == state.head_block_hash
      then (tree, on_current_head state payload_attrs version tree)
      else elim (on_new_head tree.provider tree.canonical_head state.head_block_hash) [
        | none ↦ (tree, on_unknown_head state tree)
        | some chain_update ↦ elim (tip chain_update) [
          | none ↦ (tree, on_unknown_head state tree)
          | some head ↦ on_head_update chain_update head state payload_attrs version tree
        ]
      ]

  unfoldable pub on_forkchoice_updated :
      ForkchoiceState → Option env.Attributes → env.Version → EngineTree env → Updated env
  unfolding pre_validate_forkchoice_update on_validated_update
  on_forkchoice_updated state payload_attrs version tree =
      let (after, refused) = pre_validate_forkchoice_update state tree in
      elim refused [
        | some updated ↦ (after, plain updated)
        | none ↦ on_validated_update state payload_attrs version after
      ]
