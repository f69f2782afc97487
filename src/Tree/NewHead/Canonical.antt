-- ===== src/Tree/NewHead/Canonical.antt =====
-- crates/engine/src/tree/mod.rs: what `make_canonical` changes.
use zk_ress.Base.{
  ℕ, ◌≡◌, ◌⊎◌, refl, true, List, ◌∷◌, none, some, arith, Option-cases, inl, inr, ◌∙◌, [],
}
use zk_ress.Env.{Env}
use zk_ress.Primitives.{SealedHeader, num_hash}
use zk_ress.Provider
use zk_ress.Provider.{ZkRessProvider, insert_headers, remove_headers}
use zk_ress.ChainState
use zk_ress.ChainState.{ChainStateInner}
use zk_ress.Provider.ChainUpdate.{
  canonical, latest, unless_listed, on_chain_update_tip, canonical-on_chain_update,
}
use zk_ress.Tree.{EngineTree, canonical_chain_committed, stored}
use zk_ress.Tree.NewHead.{
  NewCanonicalChain, added_blocks, removed_blocks, tip, on_new_head, apply_chain_update,
  on_canonical_chain_update, make_canonical,
}
use zk_ress.Tree.NewHead.Chains.{Updates, on_new_head_lem}
use zk_ress.Tree.NewHead.Tips.{on_new_head-tip}

-- The effect of an update with the tip `t`: the tip is the canonical head, its hash is canonical at its
-- number, and one event tells of it. The other canonical hashes follow from the two chains, and the
-- rest of the state stays.
pub record MadeCanonical {env : Env} (update : NewCanonicalChain) (t : SealedHeader)
    (before after : EngineTree env) : Type 0 where
  pub head : after.canonical_head ≡ num_hash t
  pub placed : canonical t.number after.provider.chain_state ≡ some t.hash
  pub is_canonical : Provider.is_hash_canonical after.provider t.hash ≡ true
  pub told : after.events ≡ canonical_chain_committed t ∷ before.events
  pub hashes :
      (k : ℕ)
      → canonical k after.provider.chain_state
        ≡ latest k
            (added_blocks update)
            (unless_listed k (removed_blocks update) (canonical k before.provider.chain_state))
  pub blocks :
      after.provider.chain_state.blocks_by_hash ≡ before.provider.chain_state.blocks_by_hash
  pub buffer : after.block_buffer ≡ before.block_buffer

insert_headers_blocks :
    {B P : Type 0} (hs : List SealedHeader) (s : ChainStateInner B P)
    → (insert_headers hs s).blocks_by_hash ≡ s.blocks_by_hash
unfolding insert_headers ChainState.insert_canonical_hash
insert_headers_blocks [] s = refl
insert_headers_blocks (h ∷ hs) s = insert_headers_blocks hs _

remove_canonical_hash_blocks :
    {B P : Type 0} (n hash : ℕ) (s : ChainStateInner B P)
    → (ChainState.remove_canonical_hash n hash s).blocks_by_hash ≡ s.blocks_by_hash
unfolding ChainState.remove_canonical_hash
remove_canonical_hash_blocks n hash s = ground arith

remove_headers_blocks :
    {B P : Type 0} (hs : List SealedHeader) (s : ChainStateInner B P)
    → (remove_headers hs s).blocks_by_hash ≡ s.blocks_by_hash
unfolding remove_headers
remove_headers_blocks [] s = refl
remove_headers_blocks (h ∷ hs) s =
    remove_headers_blocks hs _ ∙ remove_canonical_hash_blocks h.number h.hash s

pub on_chain_update_blocks :
    {B P : Type 0} (added removed : List SealedHeader) (p : ZkRessProvider B P)
    → (Provider.on_chain_update added removed p).chain_state.blocks_by_hash
      ≡ p.chain_state.blocks_by_hash
unfolding Provider.on_chain_update
on_chain_update_blocks added removed p =
    insert_headers_blocks added _ ∙ remove_headers_blocks removed p.chain_state

module _ {env : Env} (tree : EngineTree env) where
  pub apply_chain_update-MadeCanonical :
      (update : NewCanonicalChain) (t : SealedHeader)
      → tip update ≡ some t
      → MadeCanonical update t tree (apply_chain_update update t tree)
  unfolding apply_chain_update tip
  apply_chain_update-MadeCanonical update t is_tip =
      let (placed, is_canonical) =
        on_chain_update_tip (added_blocks update) (removed_blocks update) t tree.provider is_tip in
      record {
        head = refl;
        placed = placed;
        is_canonical = is_canonical;
        told = refl;
        hashes =
            canonical-on_chain_update (added_blocks update) (removed_blocks update) tree.provider;
        blocks = on_chain_update_blocks (added_blocks update) (removed_blocks update) tree.provider;
        buffer = refl;
      }

  pub on_canonical_chain_update-apply :
      (update : NewCanonicalChain) (t : SealedHeader)
      → tip update ≡ some t
      → on_canonical_chain_update update tree ≡ apply_chain_update update t tree
  unfolding on_canonical_chain_update
  on_canonical_chain_update-apply update t is_tip = rw (is_tip, on_canonical_chain_update)

  pub make_canonical-update :
      (target : ℕ) (update : NewCanonicalChain)
      → on_new_head tree.provider tree.canonical_head target ≡ some update
      → make_canonical target tree ≡ on_canonical_chain_update update tree
  unfolding make_canonical
  make_canonical-update target update e = rw (e, make_canonical)

  pub make_canonical_unknown :
      (target : ℕ)
      → on_new_head tree.provider tree.canonical_head target ≡ none
      → make_canonical target tree ≡ tree
  unfolding make_canonical
  make_canonical_unknown target e = rw (e, make_canonical)

  -- Either on_new_head finds no update for the target and make_canonical changes nothing, or it
  -- finds one, which leads to the target from the canonical head or from a fork, and its tip, the
  -- stored header of the target, becomes the canonical head and canonical at its number, one event
  -- tells of it, and the other canonical hashes follow from the two chains of the update.
  pub make_canonical_lem :
      (target : ℕ)
      → ((on_new_head tree.provider tree.canonical_head target ≡ none)
          × (make_canonical target tree ≡ tree))
        ⊎ ((update : NewCanonicalChain) × (t : SealedHeader) × (stored tree target ≡ some t)
            × Updates tree.provider tree.canonical_head target update
            × MadeCanonical update t tree (make_canonical target tree))
  make_canonical_lem target =
      elim (Option-cases (on_new_head tree.provider tree.canonical_head target)) [
        | inl e ↦ inl (e, make_canonical_unknown target e)
        | inr (update, e) ↦
            let (t, is_stored, is_tip) =
              on_new_head-tip tree.provider tree.canonical_head target update e in
            inr (
              update,
              t,
              is_stored,
              on_new_head_lem tree.provider tree.canonical_head target update e,
              rw
                  (
                    make_canonical-update target update e,
                    on_canonical_chain_update-apply update t is_tip,
                  )
                  (apply_chain_update-MadeCanonical update t is_tip),
            )
      ]
