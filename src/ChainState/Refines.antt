-- ===== src/ChainState/Refines.antt =====
-- crates/provider/src/chain_state.rs against a specification: the chain state as three partial functions,
-- without the index by number and the order of the maps.
use mathlib.Core.Path.{fun_ext}
use zk_ress.Base.{
  ℕ, ◌-◌, ◌≡◌, refl, sym, ap, subst, ◌∙◌, List, [], ◌∷◌, Option, none, some, ltb, ◌==◌, arith,
  if◌then◌else◌, Option-cases, inl, inr,
}
use zk_ress.Base.Maps.{lookup, lookup-insert, lookup-remove}
use zk_ress.ChainState.{
  ChainStateInner, insert_block, insert_proof, insert_canonical_hash, remove_canonical_hash,
  remove_blocks_on_finalized,
}
use zk_ress.ChainState.Finalized.{
  unless_before, unless_old, remove_blocks_on_finalized_exact,
  remove_blocks_on_finalized-IsConsistent,
}
use zk_ress.ChainState.Invariant.{
  IsConsistent, insert_block-IsConsistent, insert_canonical_hash-IsConsistent,
  remove_canonical_hash-IsConsistent,
}
use zk_ress.Primitives.{Block}

-- The operations that change the chain state.
pub data Op (B P : Type 0) : Type 0 where
  store : Block B → Option P → Op B P
  mark unmark : (number hash : ℕ) → Op B P
  finalize : ℕ → Op B P

-- The specification: what is stored under a hash, and what is canonical at a number.
pub record Chain (B P : Type 0) : Type 0 where
  pub block : ℕ → Option (Block B)
  pub proof : ℕ → Option P
  pub canonical : ℕ → Option ℕ

abbrev pub with_proof : {P : Type 0} → ℕ → Option P → (ℕ → Option P) → ℕ → Option P
with_proof hash none proofs h = proofs h
with_proof hash (some witness) proofs h = if hash == h then some witness else proofs h

abbrev pub unless_is : ℕ → Option ℕ → Option ℕ
unless_is hash none = none
unless_is hash (some entry) = if entry == hash then none else some entry

module _ {B P : Type 0} where
  Chain-ext :
      (c d : Chain B P) → c.block ≡ d.block → c.proof ≡ d.proof → c.canonical ≡ d.canonical → c ≡ d
  Chain-ext c d blocks proofs canonicals =
      λ i. record { block = blocks i; proof = proofs i; canonical = canonicals i }

  abbrev pub spec : Op B P → Chain B P → Chain B P
  spec (store block maybe_proof) c = record c {
    block = λ h. if block.hash == h then some block else c.block h;
    proof = with_proof block.hash maybe_proof c.proof;
  }
  spec (mark number hash) c = record c {
    canonical = λ k. if number == k then some hash else c.canonical k;
  }
  spec (unmark number hash) c = record c {
    canonical = λ k. if number == k then unless_is hash (c.canonical k) else c.canonical k;
  }
  spec (finalize hash) c = elim (c.block hash) [
    | none ↦ c
    | some f ↦ record {
      block = λ h. unless_before f.number (c.block h);
      proof = λ h. unless_old f.number (c.block h) (c.proof h);
      canonical = λ k. if ltb k (f.number - 256) then none else c.canonical k;
    }
  ]

  -- What is asked of an operation: a stored block of the same hash has the same number.
  abbrev pub Fits : Op B P → Chain B P → Type 0
  Fits (store block maybe_proof) c =
      (old : Block B) → c.block block.hash ≡ some old → old.number ≡ block.number
  Fits (mark number hash) c = Unit
  Fits (unmark number hash) c = Unit
  Fits (finalize hash) c = Unit

  abbrev pub apply : Op B P → ChainStateInner B P → ChainStateInner B P
  apply (store block maybe_proof) s = insert_block block maybe_proof s
  apply (mark number hash) s = insert_canonical_hash number hash s
  apply (unmark number hash) s = remove_canonical_hash number hash s
  apply (finalize hash) s = remove_blocks_on_finalized hash s

  abbrev pub view : ChainStateInner B P → Chain B P
  view s = record {
    block = λ h. lookup h s.blocks_by_hash;
    proof = λ h. lookup h s.proofs;
    canonical = λ k. lookup k s.canonical_hashes_by_number;
  }

  apply-IsConsistent :
      (op : Op B P) (s : ChainStateInner B P)
      → IsConsistent s
      → Fits op (view s)
      → IsConsistent (apply op s)
  apply-IsConsistent (store block maybe_proof) s v fits =
      insert_block-IsConsistent block maybe_proof s fits v
  apply-IsConsistent (mark number hash) s v fits =
      insert_canonical_hash-IsConsistent number hash s v
  apply-IsConsistent (unmark number hash) s v fits =
      remove_canonical_hash-IsConsistent number hash s v
  apply-IsConsistent (finalize hash) s v fits = remove_blocks_on_finalized-IsConsistent s v hash

  view-apply :
      (op : Op B P) (s : ChainStateInner B P)
      → IsConsistent s
      → view (apply op s) ≡ spec op (view s)
  unfolding insert_block insert_proof insert_canonical_hash remove_canonical_hash
      remove_blocks_on_finalized
  view-apply (store block none) s v =
      Chain-ext _ _ (fun_ext λ h. lookup-insert block.hash h block s.blocks_by_hash) refl refl
  view-apply (store block (some witness)) s v =
      Chain-ext _ _ (fun_ext λ h. lookup-insert block.hash h block s.blocks_by_hash)
        (fun_ext λ h. lookup-insert block.hash h witness s.proofs) refl
  view-apply (mark number hash) s v =
      Chain-ext _ _ refl refl
        (fun_ext λ k. lookup-insert number k hash s.canonical_hashes_by_number)
  view-apply (unmark number hash) s v =
      Chain-ext _ _ (fun_ext λ h. ground arith) (fun_ext λ h. ground arith)
        (fun_ext λ k. ground (arith, lookup-remove number k s.canonical_hashes_by_number))
  view-apply (finalize hash) s v = elim (Option-cases (lookup hash s.blocks_by_hash)) [
    | inl missing ↦ rw (spec, missing, remove_blocks_on_finalized) refl
    | inr (f, found) ↦
        let (blocks, proofs, canonicals) = remove_blocks_on_finalized_exact s v hash f found in
        rw (spec, found) (Chain-ext _ _ (fun_ext blocks) (fun_ext proofs) (fun_ext canonicals))
  ]

  abbrev pub apply_all : List (Op B P) → ChainStateInner B P → ChainStateInner B P
  apply_all [] s = s
  apply_all (op ∷ ops) s = apply_all ops (apply op s)

  abbrev pub spec_all : List (Op B P) → Chain B P → Chain B P
  spec_all [] c = c
  spec_all (op ∷ ops) c = spec_all ops (spec op c)

  abbrev pub AllFit : List (Op B P) → Chain B P → Type 0
  AllFit [] c = Unit
  AllFit (op ∷ ops) c = Fits op c × AllFit ops (spec op c)

  -- From a chain state with the invariant, whatever blocks are stored, canonical hashes set or
  -- removed and blocks finalized, in any order, the chain state holds the blocks, proofs and
  -- canonical hashes that the specification on partial functions has after the same operations,
  -- and keeps the invariant, if a block that is stored in the place of another has its number.
  pub view-apply_all :
      (ops : List (Op B P)) (s : ChainStateInner B P)
      → IsConsistent s
      → AllFit ops (view s)
      → (view (apply_all ops s) ≡ spec_all ops (view s)) × IsConsistent (apply_all ops s)
  view-apply_all [] s v fit = (refl, v)
  view-apply_all (op ∷ ops) s v (fits, later) =
      let step = view-apply op s v in
      let (same, w) =
        view-apply_all ops (apply op s) (apply-IsConsistent op s v fits)
          (subst (AllFit ops) (sym step) later) in
      (same ∙ ap (spec_all ops) step, w)
