-- ===== src/Tree/Sound/Insert.antt =====
-- crates/engine/src/tree/mod.rs: what `insert_block` lets into the provider, and the invariant behind it.
use zk_ress.Base.{
  ℕ, ◌≡◌, ◌⊎◌, refl, Option, none, some, arith, Option-cases, Bool-cases, inl, inr, ◌==◌,
}
use zk_ress.Base.Maps.{lookup, lookup-insert}
use zk_ress.Buffer.Insert.{insert_block-IsValid}
use zk_ress.Buffer.Invariant.{insert_proof-IsValid}
use zk_ress.Buffer.Lru.{IsLru}
use zk_ress.ChainState
use zk_ress.ChainState.Invariant.{insert_block-IsConsistent}
use zk_ress.Env.{Env, Result, ok, InsertBlockErrorKind}
use zk_ress.Primitives.{SealedHeader, Block}
use zk_ress.Provider
use zk_ress.Tree.{EngineTree, InsertPayloadOk, inserted, valid, stored}
use zk_ress.Tree.Insert.{
  validate_block, buffer_proof, buffer_block, buffer_disconnected, add_verified, insert_connected,
  insert_validated, insert_block,
}
use zk_ress.Tree.Sound.{Justified, by_proof, IsSound}

-- The block was new, valid, had a stored parent and a proof that the verifier accepted. It is stored
-- with its proof, and the answer says so.
pub record Accepted {env : Env} (block : Block env.Body) (maybe_proof : Option env.Proof)
    (before : EngineTree env)
    (after : EngineTree env × Result InsertPayloadOk (InsertBlockErrorKind env.Error))
    : Type 0 where
  pub parent : SealedHeader
  pub proof : env.Proof
  pub is_new : stored before block.hash ≡ none
  pub is_valid : validate_block env block ≡ none
  pub is_connected : stored before block.parent_hash ≡ some parent
  pub has_proof : maybe_proof ≡ some proof
  pub is_verified : env.verify before.provider block parent proof ≡ none
  pub is_stored : after.0.provider ≡ Provider.insert_block block (some proof) before.provider
  pub is_answered : after.1 ≡ ok (inserted valid)

module _ {env : Env} where
  buffer_proof_provider :
      (hash : ℕ) (maybe_proof : Option env.Proof) (tree : EngineTree env)
      → (buffer_proof hash maybe_proof tree).provider ≡ tree.provider
  unfolding buffer_proof
  buffer_proof_provider hash none tree = refl
  buffer_proof_provider hash (some p) tree = refl

  -- The function insert_block of the tree leaves the provider as it is, or the block was new and
  -- valid, its parent was stored, there was a proof that the verifier accepted against that
  -- parent, and the block is stored with that proof and answered as inserted and valid.
  pub insert_block-Accepted :
      (block : Block env.Body) (maybe_proof : Option env.Proof) (tree : EngineTree env)
      → ((insert_block block maybe_proof tree).0.provider ≡ tree.provider)
        ⊎ Accepted block maybe_proof tree (insert_block block maybe_proof tree)
  unfolding insert_block insert_validated insert_connected buffer_disconnected buffer_block
      add_verified
  insert_block-Accepted block maybe_proof tree = elim (Option-cases (stored tree block.hash)) [
    | inr (h, seen) ↦ inl (rw (seen, insert_block) refl)
    | inl new ↦ elim (Option-cases (validate_block env block)) [
      | inr (e, refused) ↦ inl (rw (new, refused, insert_block) refl)
      | inl passed ↦ elim (Option-cases (stored tree block.parent_hash)) [
        | inl unknown ↦ inl (
            rw (new, passed, insert_block, unknown, insert_validated)
              (buffer_proof_provider block.hash maybe_proof tree))
        | inr (parent, known) ↦ connected new passed parent known maybe_proof
      ]
    ]
  ]
    where
      connected :
          stored tree block.hash ≡ none
          → validate_block env block ≡ none
          → (parent : SealedHeader) → stored tree block.parent_hash ≡ some parent
          → (mp : Option env.Proof)
          → ((insert_block block mp tree).0.provider ≡ tree.provider)
            ⊎ Accepted block mp tree (insert_block block mp tree)
      connected new passed parent known none =
          inl (rw (new, passed, insert_block, known, insert_validated) refl)
      connected new passed parent known (some p) =
          elim (Option-cases (env.verify tree.provider block parent p)) [
            | inr (e, refused) ↦ inl (
                rw (new, passed, insert_block, known, insert_validated, refused, insert_connected)
                  refl)
            | inl accepted ↦ inr (record {
              parent = parent;
              proof = p;
              is_new = new;
              is_valid = passed;
              is_connected = known;
              has_proof = refl;
              is_verified = accepted;
              is_stored =
                  rw
                    (new, passed, insert_block, known, insert_validated, accepted, insert_connected)
                    refl;
              is_answered =
                  rw
                    (new, passed, insert_block, known, insert_validated, accepted, insert_connected)
                    refl;
            })
          ]

  not_stored :
      (tree : EngineTree env) (h : ℕ)
      → stored tree h ≡ none
      → lookup h tree.provider.chain_state.blocks_by_hash ≡ none
  unfolding Provider.sealed_header ChainState.sealed_header ChainState.map_recovered_block
  not_stored tree h e = elim (Option-cases (lookup h tree.provider.chain_state.blocks_by_hash)) [
    | inl missing ↦ missing
    | inr (b, present) ↦ absurd (ground arith)
  ]

module _ {env : Env} (laws : IsLru env.lru) (trusted : Block env.Body → Type 0) where
  buffer_proof-IsSound :
      (hash : ℕ) (maybe_proof : Option env.Proof) (tree : EngineTree env)
      → IsSound trusted tree
      → IsSound trusted (buffer_proof hash maybe_proof tree)
  unfolding buffer_proof
  buffer_proof-IsSound hash none tree v = v
  buffer_proof-IsSound hash (some p) tree v = record {
    justified = v.justified;
    consistent = v.consistent;
    buffered = insert_proof-IsValid laws hash p tree.block_buffer v.buffered;
  }

  buffer_block-IsSound :
      (block : Block env.Body) (tree : EngineTree env)
      → IsSound trusted tree
      → IsSound trusted (buffer_block block tree)
  unfolding buffer_block
  buffer_block-IsSound block tree v = record {
    justified = v.justified;
    consistent = v.consistent;
    buffered = insert_block-IsValid laws block tree.block_buffer v.buffered;
  }

  add_verified-IsSound :
      (block : Block env.Body) (p : env.Proof) (tree : EngineTree env)
      → stored tree block.hash ≡ none
      → Justified env trusted block
      → IsSound trusted tree
      → IsSound trusted (add_verified block p tree)
  unfolding add_verified Provider.insert_block ChainState.insert_block
  add_verified-IsSound block p tree new why v = record {
    justified = added;
    consistent =
        insert_block-IsConsistent block (some p) tree.provider.chain_state
          (λ old e. absurd (ground (arith, not_stored tree block.hash new, e))) v.consistent;
    buffered = v.buffered;
  }
    where
      added :
          (h : ℕ) (b : Block env.Body)
          → lookup h (add_verified block p tree).provider.chain_state.blocks_by_hash ≡ some b
          → Justified env trusted b
      added h b e = elim (Bool-cases (block.hash == h)) [
        | inl same ↦
            let is_block : block ≡ b = ground (
              arith,
              lookup-insert block.hash h block tree.provider.chain_state.blocks_by_hash,
              e,
            ) in
            rw (← is_block) why
        | inr other ↦ v.justified h b (
            ground
              (arith, lookup-insert block.hash h block tree.provider.chain_state.blocks_by_hash, e))
      ]

  insert_connected-IsSound :
      (block : Block env.Body) (parent : SealedHeader) (maybe_proof : Option env.Proof)
      (tree : EngineTree env)
      → stored tree block.hash ≡ none
      → validate_block env block ≡ none
      → stored tree block.parent_hash ≡ some parent
      → IsSound trusted tree
      → IsSound trusted (insert_connected block parent maybe_proof tree).0
  unfolding insert_connected
  insert_connected-IsSound block parent none tree new passed known v =
      buffer_block-IsSound block tree v
  insert_connected-IsSound block parent (some p) tree new passed known v =
      elim (Option-cases (env.verify tree.provider block parent p)) [
        | inr (e, refused) ↦ rw (refused, insert_connected) v
        | inl accepted ↦
            rw (accepted, insert_connected)
              (add_verified-IsSound block p tree new
                (by_proof tree.provider parent p passed known accepted) v)
      ]

  -- Whatever `insert_block` answers, the invariant holds after it.
  pub insert_block-IsSound :
      (block : Block env.Body) (maybe_proof : Option env.Proof) (tree : EngineTree env)
      → IsSound trusted tree
      → IsSound trusted (insert_block block maybe_proof tree).0
  unfolding insert_block insert_validated buffer_disconnected
  insert_block-IsSound block maybe_proof tree v = elim (Option-cases (stored tree block.hash)) [
    | inr (h, seen) ↦ rw (seen, insert_block) v
    | inl new ↦ elim (Option-cases (validate_block env block)) [
      | inr (e, refused) ↦ rw (new, refused, insert_block) v
      | inl passed ↦ elim (Option-cases (stored tree block.parent_hash)) [
        | inl unknown ↦
            rw (new, passed, insert_block, unknown, insert_validated)
              (buffer_block-IsSound block (buffer_proof block.hash maybe_proof tree)
                (buffer_proof-IsSound block.hash maybe_proof tree v))
        | inr (parent, known) ↦
            rw (new, passed, insert_block, known, insert_validated)
              (insert_connected-IsSound block parent maybe_proof tree new passed known v)
      ]
    ]
  ]
