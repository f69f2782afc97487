-- ===== src/Tree/Invalid.antt =====
-- crates/engine/src/tree/mod.rs: the invalid header cache, and the payload statuses built from it.
-- The methods change the cache only.
pub mod Walk
use zk_ress.Base.{ℕ, zero, suc, Option, none, some, not, if◌then◌else◌, is_some, unwrap_or}
use zk_ress.Env.{
  Env, Result, ok, err, PayloadStatus, invalid, BlockWithParent, InsertBlockErrorKind,
}
use zk_ress.Primitives.{SealedHeader, Block, num_hash, is_zero}
use zk_ress.Tree.{EngineTree, stored}

abbrev pub block_with_parent : SealedHeader → BlockWithParent
block_with_parent h = record { parent = h.parent_hash; block = num_hash h }

module _ {env : Env} where
  -- The loop of `latest_valid_hash_for_invalid_payload`, from a cached ancestor on. The loop of
  -- the code has no bound (`Walks` of Tree/Invalid/Walk.antt); here it is on fuel. The cache holds 256
  -- entries, hence the 257 rounds of the caller.
  unfoldable pub valid_ancestor : ℕ → EngineTree env → BlockWithParent → EngineTree env × Option ℕ
  valid_ancestor zero tree current = (tree, none)
  valid_ancestor (suc fuel) tree current =
      let (cache, next) = env.cache_get current.parent tree.invalid_headers in
      let looked_up = record tree { invalid_headers = cache } in
      elim next [
        | none ↦
            (looked_up, if is_some (stored tree current.parent) then some current.parent else none)
        | some ancestor ↦ valid_ancestor fuel looked_up ancestor
      ]

  unfoldable pub latest_valid_hash_for_invalid_payload :
      ℕ → EngineTree env → EngineTree env × Option ℕ
  unfolding valid_ancestor
  latest_valid_hash_for_invalid_payload parent_hash tree =
      if is_some (stored tree parent_hash)
      then (tree, some parent_hash)
      else (let (cache, current) = env.cache_get parent_hash tree.invalid_headers in
          let looked_up = record tree { invalid_headers = cache } in
          elim current [
            | none ↦ (looked_up, none)
            | some block ↦ valid_ancestor 257 looked_up block
          ])

  -- The parent hash, or zero if the parent is a proof-of-work block.
  unfoldable pub terminal_parent : EngineTree env → ℕ → ℕ
  terminal_parent tree parent_hash = elim (stored tree parent_hash) [
    | none ↦ parent_hash
    | some parent ↦ if not (is_zero parent.difficulty) then 0 else parent_hash
  ]

  unfoldable pub prepare_invalid_response : ℕ → EngineTree env → EngineTree env × PayloadStatus
  unfolding latest_valid_hash_for_invalid_payload terminal_parent
  prepare_invalid_response parent_hash tree =
      let (after, valid_parent_hash) =
        latest_valid_hash_for_invalid_payload (terminal_parent tree parent_hash) tree in
      (
        after,
        record {
          status = invalid env.links_to_rejected_payload;
          latest_valid_hash = some (unwrap_or valid_parent_hash 0);
        },
      )

  unfoldable pub check_invalid_ancestor : ℕ → EngineTree env → EngineTree env × Option PayloadStatus
  unfolding prepare_invalid_response
  check_invalid_ancestor head tree =
      let (cache, header) = env.cache_get head tree.invalid_headers in
      let looked_up = record tree { invalid_headers = cache } in
      elim header [
        | none ↦ (looked_up, none)
        | some h ↦
            let (after, status) = prepare_invalid_response h.parent looked_up in
            (after, some status)
      ]

  unfoldable pub check_invalid_ancestor_with_head :
      ℕ → ℕ → EngineTree env → EngineTree env × Option PayloadStatus
  unfolding prepare_invalid_response
  check_invalid_ancestor_with_head check head tree =
      let (cache, header) = env.cache_get check tree.invalid_headers in
      let looked_up = record tree { invalid_headers = cache } in
      elim header [
        | none ↦ (looked_up, none)
        | some h ↦
            let (after, status) = prepare_invalid_response h.parent looked_up in
            (
              record after {
                invalid_headers =
                    env.cache_insert_with_invalid_ancestor head h after.invalid_headers;
              },
              some status,
            )
      ]

  unfoldable pub on_insert_block_error :
      Block env.Body
      → InsertBlockErrorKind env.Error
      → EngineTree env
      → EngineTree env × Result PayloadStatus env.Fatal
  unfolding latest_valid_hash_for_invalid_payload
  on_insert_block_error block error tree = elim (env.ensure_validation_error error) [
    | err fatal ↦ (tree, err fatal)
    | ok validation_error ↦
        let (after, latest_valid_hash) =
          latest_valid_hash_for_invalid_payload block.parent_hash tree in
        (
          record after {
            invalid_headers =
                env.cache_insert (block_with_parent block.header) after.invalid_headers;
          },
          ok (record { status = invalid validation_error; latest_valid_hash = latest_valid_hash }),
        )
  ]
