-- ===== src/Tree/Sound.antt =====
-- crates/engine/src/tree/mod.rs: the invariant that ties the tree's stores together, and the operations
-- that do not insert.
pub mod Insert
pub mod Connect
pub mod Handlers
pub mod Status
pub mod Verified
pub mod Payloads
use zk_ress.Base.{
  ℕ, zero, suc, ◌≡◌, refl, Option, none, some, Option-cases, Bool-cases, inl, inr, if◌then◌else◌,
  is_some,
}
use zk_ress.Base.Maps.{lookup}
use zk_ress.Buffer
use zk_ress.Buffer.{BlockBuffer}
use zk_ress.Buffer.Lru.{IsLru}
use zk_ress.Buffer.Invariant.{IsValid}
use zk_ress.Buffer.Evict.{evict_old_blocks-IsValid}
use zk_ress.ChainState.Invariant.{IsConsistent}
use zk_ress.ChainState.Finalized.{
  remove_blocks_on_finalized-IsConsistent, remove_blocks_on_finalized_kept,
}
use zk_ress.Env.{Env, Result, ok, err, InsertBlockErrorKind, BlockWithParent}
use zk_ress.Primitives.{SealedHeader, Block, is_zero}
use zk_ress.Provider
use zk_ress.Provider.{ZkRessProvider}
use zk_ress.Provider.ChainUpdate.{on_chain_update-IsConsistent}
use zk_ress.Tree.{EngineTree}
use zk_ress.Tree.Forkchoice.{clean_up}
use zk_ress.Tree.Insert.{validate_block}
use zk_ress.Tree.Invalid.{
  valid_ancestor, latest_valid_hash_for_invalid_payload, prepare_invalid_response,
  check_invalid_ancestor, check_invalid_ancestor_with_head, on_insert_block_error,
}
use zk_ress.Tree.NewHead.{
  NewCanonicalChain, added_blocks, removed_blocks, tip, on_new_head, apply_chain_update,
  on_canonical_chain_update, make_canonical,
}
use zk_ress.Tree.NewHead.Canonical.{on_chain_update_blocks}

-- Why a block may stand in the provider: it is trusted, or it passed the validation of the consensus
-- and the verifier accepted it, with a proof, against its parent as some state of the provider had it.
pub data Justified (env : Env) (trusted : Block env.Body → Type 0) (block : Block env.Body)
    : Type 0 where
  by_trust : trusted block → Justified env trusted block
  by_proof :
      (provider : ZkRessProvider env.Body env.Proof) (parent : SealedHeader) (proof : env.Proof)
      → validate_block env block ≡ none
      → Provider.sealed_header provider block.parent_hash ≡ some parent
      → env.verify provider block parent proof ≡ none
      → Justified env trusted block

-- Every stored block is justified, the indices of the chain state agree with its blocks, and the
-- buffer's collections agree with each other.
pub record Sound (env : Env) (trusted : Block env.Body → Type 0)
    (provider : ZkRessProvider env.Body env.Proof) (buffer : BlockBuffer env.lru env.Body env.Proof)
    : Type 0 where
  pub justified :
      (h : ℕ) (b : Block env.Body)
      → lookup h provider.chain_state.blocks_by_hash ≡ some b
      → Justified env trusted b
  pub consistent : IsConsistent provider.chain_state
  pub buffered : IsValid buffer

abbrev pub IsSound : {env : Env} → (Block env.Body → Type 0) → EngineTree env → Type 0
IsSound {env} trusted tree = Sound env trusted tree.provider tree.block_buffer

-- Only the cache of invalid headers may differ.
abbrev pub KeepsStores : {env : Env} → EngineTree env → EngineTree env → Type 0
KeepsStores before after =
    (after.provider ≡ before.provider)
    × (after.block_buffer ≡ before.block_buffer)
    × (after.canonical_head ≡ before.canonical_head)

module _ {env : Env} where
  valid_ancestor-KeepsStores :
      (fuel : ℕ) (tree : EngineTree env) (current : BlockWithParent)
      → KeepsStores tree (valid_ancestor fuel tree current).0
  unfolding valid_ancestor
  valid_ancestor-KeepsStores zero tree current = (refl, refl, refl)
  valid_ancestor-KeepsStores (suc fuel) tree current =
      elim (Option-cases (env.cache_get current.parent tree.invalid_headers).1) [
        | inl missing ↦ rw (missing, valid_ancestor) (refl, refl, refl)
        | inr (next, present) ↦
            rw (present, valid_ancestor) (valid_ancestor-KeepsStores fuel _ next)
      ]

  pub latest_valid_hash-KeepsStores :
      (hash : ℕ) (tree : EngineTree env)
      → KeepsStores tree (latest_valid_hash_for_invalid_payload hash tree).0
  unfolding latest_valid_hash_for_invalid_payload
  latest_valid_hash-KeepsStores hash tree =
      elim (Bool-cases (is_some (Provider.sealed_header tree.provider hash))) [
        | inl known ↦ rw (known, latest_valid_hash_for_invalid_payload) (refl, refl, refl)
        | inr unknown ↦ elim (Option-cases (env.cache_get hash tree.invalid_headers).1) [
          | inl missing ↦
              rw (unknown, missing, latest_valid_hash_for_invalid_payload) (refl, refl, refl)
          | inr (next, present) ↦
              rw (unknown, present, latest_valid_hash_for_invalid_payload)
                (valid_ancestor-KeepsStores 257 _ next)
        ]
      ]

  pub check_invalid_ancestor-KeepsStores :
      (head : ℕ) (tree : EngineTree env) → KeepsStores tree (check_invalid_ancestor head tree).0
  unfolding check_invalid_ancestor prepare_invalid_response
  check_invalid_ancestor-KeepsStores head tree =
      elim (Option-cases (env.cache_get head tree.invalid_headers).1) [
        | inl missing ↦ rw (missing, check_invalid_ancestor) (refl, refl, refl)
        | inr (h, present) ↦
            rw (present, check_invalid_ancestor) (latest_valid_hash-KeepsStores _ _)
      ]

  pub check_invalid_ancestor_with_head-KeepsStores :
      (check head : ℕ) (tree : EngineTree env)
      → KeepsStores tree (check_invalid_ancestor_with_head check head tree).0
  unfolding check_invalid_ancestor_with_head prepare_invalid_response
  check_invalid_ancestor_with_head-KeepsStores check head tree =
      elim (Option-cases (env.cache_get check tree.invalid_headers).1) [
        | inl missing ↦ rw (missing, check_invalid_ancestor_with_head) (refl, refl, refl)
        | inr (h, present) ↦
            rw (present, check_invalid_ancestor_with_head) (latest_valid_hash-KeepsStores _ _)
      ]

  pub on_insert_block_error-KeepsStores :
      (block : Block env.Body) (error : InsertBlockErrorKind env.Error) (tree : EngineTree env)
      → KeepsStores tree (on_insert_block_error block error tree).0
  unfolding on_insert_block_error
  on_insert_block_error-KeepsStores block error tree =
      by_error (env.ensure_validation_error error) refl
    where
      by_error :
          (r : Result _ env.Fatal)
          → env.ensure_validation_error error ≡ r
          → KeepsStores tree (on_insert_block_error block error tree).0
      by_error (ok message) e =
          rw (e, on_insert_block_error) (latest_valid_hash-KeepsStores block.parent_hash tree)
      by_error (err fatal) e = rw (e, on_insert_block_error) (refl, refl, refl)

module _ {env : Env} (laws : IsLru env.lru) (trusted : Block env.Body → Type 0) where
  pub KeepsStores-IsSound :
      (before after : EngineTree env)
      → KeepsStores before after
      → IsSound trusted before
      → IsSound trusted after
  KeepsStores-IsSound before after (same_provider, same_buffer, same_head) v =
      rw (same_provider, same_buffer) v

  pub on_canonical_chain_update-IsSound :
      (update : NewCanonicalChain) (tree : EngineTree env)
      → IsSound trusted tree
      → IsSound trusted (on_canonical_chain_update update tree)
  unfolding on_canonical_chain_update apply_chain_update
  on_canonical_chain_update-IsSound update tree v = elim (Option-cases (tip update)) [
    | inl empty ↦ rw (empty, on_canonical_chain_update) v
    | inr (head, is_tip) ↦
        rw (is_tip, on_canonical_chain_update)
          (record {
            justified = λ h b e. v.justified h b (
                rw
                  (on_chain_update_blocks (added_blocks update) (removed_blocks update)
                    tree.provider)
                  at e);
            consistent =
                on_chain_update-IsConsistent (added_blocks update) (removed_blocks update)
                  tree.provider v.consistent;
            buffered = v.buffered;
          })
  ]

  pub make_canonical-IsSound :
      (target : ℕ) (tree : EngineTree env)
      → IsSound trusted tree
      → IsSound trusted (make_canonical target tree)
  unfolding make_canonical
  make_canonical-IsSound target tree v =
      elim (Option-cases (on_new_head tree.provider tree.canonical_head target)) [
        | inl e ↦ rw (e, make_canonical) v
        | inr (update, e) ↦ rw (e, make_canonical) (on_canonical_chain_update-IsSound update tree v)
      ]

  on_finalized-Sound :
      (finalized : ℕ) (p : ZkRessProvider env.Body env.Proof)
      (buffer : BlockBuffer env.lru env.Body env.Proof)
      → Sound env trusted p buffer
      → Sound env trusted (Provider.on_finalized finalized p) buffer
  unfolding Provider.on_finalized
  on_finalized-Sound finalized p buffer v = elim (Bool-cases (is_zero finalized)) [
    | inl zeroed ↦ rw (zeroed, Provider.on_finalized) v
    | inr given ↦
        rw (given, Provider.on_finalized)
          (record {
            justified = λ h b e.
                v.justified h b
                  (remove_blocks_on_finalized_kept p.chain_state v.consistent finalized h b e);
            consistent =
                remove_blocks_on_finalized-IsConsistent p.chain_state v.consistent finalized;
            buffered = v.buffered;
          })
  ]

  pub clean_up-IsSound :
      (finalized : ℕ) (tree : EngineTree env)
      → IsSound trusted tree
      → IsSound trusted (clean_up finalized tree)
  unfolding clean_up
  clean_up-IsSound finalized tree v =
      let after = on_finalized-Sound finalized tree.provider tree.block_buffer v in
      elim (Option-cases
        (Provider.block_number (Provider.on_finalized finalized tree.provider) finalized)) [
          | inl unknown ↦ rw (unknown, clean_up) after
          | inr (number, known) ↦
              rw (known, clean_up)
                (record {
                  justified = after.justified;
                  consistent = after.consistent;
                  buffered = evict_old_blocks-IsValid laws number tree.block_buffer v.buffered;
                })
        ]
