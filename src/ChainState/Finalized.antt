-- ===== src/ChainState/Finalized.antt =====
-- crates/provider/src/chain_state.rs: what `remove_blocks_on_finalized` removes, and what it keeps.
use zk_ress.Base.{
  ℕ, ◌-◌, ◌≤◌, ◌≡◌, true, false, Option, none, some, arith, ltb, if◌then◌else◌, Bool-cases,
  Option-cases, inl, inr,
}
use zk_ress.Base.Sets.{mem}
use zk_ress.Base.Maps.{lookup, IsSorted, at}
use zk_ress.ChainState.{ChainStateInner, remove_before, remove_blocks_on_finalized}
use zk_ress.ChainState.Invariant.{IsConsistent}
use zk_ress.ChainState.Pops.{
  pop_canonical_before-lookup, pop_canonical_before-IsSorted, pop_blocks_before-lookup,
  pop_blocks_before_canonical, pop_blocks_before_index, pop_blocks_before-IsSorted,
  listed_before_intro, listed_before_elim, listed_before, ListedBefore,
}
use zk_ress.Primitives.{Block}

-- What is kept of a stored block: all of it, unless its number lies below `n`.
abbrev pub unless_before : {B : Type 0} → ℕ → Option (Block B) → Option (Block B)
unless_before n none = none
unless_before n (some b) = if ltb b.number n then none else some b

-- A proof, unless its block is stored with a number below `n`.
abbrev pub unless_old : {B P : Type 0} → ℕ → Option (Block B) → Option P → Option P
unless_old n none p = p
unless_old n (some b) p = if ltb b.number n then none else p

module _ {B P : Type 0} (n : ℕ) (s : ChainStateInner B P) (v : IsConsistent s) where
  remove_before_listed :
      (h : ℕ) (b : Block B)
      → lookup h s.blocks_by_hash ≡ some b
      → listed_before h n s.block_hashes_by_number ≡ ltb b.number n
  unfolding ListedBefore
  remove_before_listed h b found = elim (Bool-cases (listed_before h n s.block_hashes_by_number)) [
    | inl early ↦
        let (k, lt, there) =
          listed_before_elim h n s.block_hashes_by_number v.numbers_sorted early in
        let (old, same, number) = v.kept k h there in ground arith
    | inr late ↦ ground (
      arith,
      v.listed h b,
      listed_before_intro h n b.number s.block_hashes_by_number v.numbers_sorted,
    )
  ]

  -- Only stored blocks are listed.
  remove_before_unlisted :
      (h : ℕ)
      → lookup h s.blocks_by_hash ≡ none
      → listed_before h n s.block_hashes_by_number ≡ false
  unfolding ListedBefore
  remove_before_unlisted h missing =
      elim (Bool-cases (listed_before h n s.block_hashes_by_number)) [
        | inl early ↦
            let (k, lt, there) =
              listed_before_elim h n s.block_hashes_by_number v.numbers_sorted early in
            let (old, same, number) = v.kept k h there in ground arith
        | inr late ↦ late
      ]

  pub remove_before_blocks :
      (h : ℕ)
      → lookup h (remove_before n s).blocks_by_hash ≡ unless_before n (lookup h s.blocks_by_hash)
  unfolding remove_before
  remove_before_blocks h = elim (Option-cases (lookup h s.blocks_by_hash)) [
    | inl missing ↦ ground (arith, pop_blocks_before-lookup n h s.block_hashes_by_number s)
    | inr (b, found) ↦ ground (
      arith,
      remove_before_listed h b found,
      pop_blocks_before-lookup n h s.block_hashes_by_number s,
    )
  ]

  pub remove_before_proofs :
      (h : ℕ) (b : Block B)
      → lookup h s.blocks_by_hash ≡ some b
      → lookup h (remove_before n s).proofs ≡ (if ltb b.number n then none else lookup h s.proofs)
  unfolding remove_before
  remove_before_proofs h b found = ground (
    arith,
    remove_before_listed h b found,
    pop_blocks_before-lookup n h s.block_hashes_by_number s,
  )

  pub remove_before_proof :
      (h : ℕ)
      → lookup h (remove_before n s).proofs
        ≡ unless_old n (lookup h s.blocks_by_hash) (lookup h s.proofs)
  unfolding remove_before
  remove_before_proof h = elim (Option-cases (lookup h s.blocks_by_hash)) [
    | inl missing ↦ ground (
      arith,
      remove_before_unlisted h missing,
      pop_blocks_before-lookup n h s.block_hashes_by_number s,
    )
    | inr (b, found) ↦ rw (found) (remove_before_proofs h b found)
  ]

  pub remove_before_canonical :
      (k : ℕ)
      → lookup k (remove_before n s).canonical_hashes_by_number
        ≡ (if ltb k (n - 256) then none else lookup k s.canonical_hashes_by_number)
  unfolding remove_before
  remove_before_canonical k =
      rw (pop_blocks_before_canonical n s.block_hashes_by_number s)
        (pop_canonical_before-lookup (n - 256) k s.canonical_hashes_by_number v.canonical_sorted)

  pub remove_before_index :
      (k : ℕ)
      → lookup k (remove_before n s).block_hashes_by_number
        ≡ (if ltb k n then none else lookup k s.block_hashes_by_number)
  unfolding remove_before
  remove_before_index k = pop_blocks_before_index n k s.block_hashes_by_number s v.numbers_sorted

  remove_before_listed_iff :
      (h : ℕ) (b : Block B)
      → lookup h (remove_before n s).blocks_by_hash ≡ some b
      → (lookup h s.blocks_by_hash ≡ some b) × (n ≤ b.number)
  remove_before_listed_iff h b e = ground (arith, remove_before_blocks h)

  remove_before-IsConsistent : IsConsistent (remove_before n s)
  unfolding mem
  remove_before-IsConsistent = record {
    own = λ h b e. v.own h b (remove_before_listed_iff h b e).0;
    listed = λ h b e.
        let (found, late) = remove_before_listed_iff h b e in
        ground (arith, remove_before_index b.number, v.listed h b found);
    kept = remove_before_kept;
    numbers_sorted = sorted;
    canonical_sorted = canonical;
  }
    where
      canonical : IsSorted (remove_before n s).canonical_hashes_by_number
      canonical =
          unfold remove_before in
          rw (pop_blocks_before_canonical n s.block_hashes_by_number s) (
            pop_canonical_before-IsSorted (n - 256) s.canonical_hashes_by_number v.canonical_sorted)

      sorted : IsSorted (remove_before n s).block_hashes_by_number
      sorted =
          unfold remove_before in
          pop_blocks_before-IsSorted n s.block_hashes_by_number s v.numbers_sorted

      remove_before_kept :
          (k h : ℕ)
          → mem h (at k (remove_before n s).block_hashes_by_number) ≡ true
          → (b : Block B) × (lookup h (remove_before n s).blocks_by_hash ≡ some b) × (b.number ≡ k)
      remove_before_kept k h e = elim (Bool-cases (ltb k n)) [
        | inl early ↦ absurd (ground (arith, remove_before_index k))
        | inr late ↦
            let (b, found, number) = v.kept k h (ground (arith, remove_before_index k)) in
            (b, ground (arith, remove_before_blocks h), number)
      ]

module _ {B P : Type 0} (s : ChainStateInner B P) (v : IsConsistent s) (hash : ℕ) where
  -- Finalization keeps the invariant of the chain state, whether or not the finalized block is
  -- stored.
  pub remove_blocks_on_finalized-IsConsistent : IsConsistent (remove_blocks_on_finalized hash s)
  unfolding remove_blocks_on_finalized
  remove_blocks_on_finalized-IsConsistent = elim (Option-cases (lookup hash s.blocks_by_hash)) [
    | inl missing ↦ rw (missing, remove_blocks_on_finalized) v
    | inr (f, found) ↦
        rw (found, remove_blocks_on_finalized) (remove_before-IsConsistent f.number s v)
  ]

  pub remove_blocks_on_finalized_kept :
      (h : ℕ) (b : Block B)
      → lookup h (remove_blocks_on_finalized hash s).blocks_by_hash ≡ some b
      → lookup h s.blocks_by_hash ≡ some b
  unfolding remove_blocks_on_finalized
  remove_blocks_on_finalized_kept h b e = elim (Option-cases (lookup hash s.blocks_by_hash)) [
    | inl missing ↦ rw (missing, remove_blocks_on_finalized) at e
    | inr (f, found) ↦
        let left : lookup h (remove_before f.number s).blocks_by_hash ≡ some b =
          rw (found, remove_blocks_on_finalized) at e in
        ground (arith, remove_before_blocks f.number s v h)
  ]

  module _ (f : Block B) (found : lookup hash s.blocks_by_hash ≡ some f) where
    finalizes : remove_blocks_on_finalized hash s ≡ remove_before f.number s
    unfolding remove_blocks_on_finalized
    finalizes = rw (found, remove_blocks_on_finalized)

    -- With the finalized block stored and the invariant, exactly the blocks with a lower number
    -- go, each with its proof, and exactly the canonical hashes more than 256 below it.
    pub remove_blocks_on_finalized_exact :
        ((h : ℕ)
          → lookup h (remove_blocks_on_finalized hash s).blocks_by_hash
            ≡ unless_before f.number (lookup h s.blocks_by_hash))
        × ((h : ℕ)
            → lookup h (remove_blocks_on_finalized hash s).proofs
              ≡ unless_old f.number (lookup h s.blocks_by_hash) (lookup h s.proofs))
        × ((k : ℕ)
            → lookup k (remove_blocks_on_finalized hash s).canonical_hashes_by_number
              ≡ (if ltb k (f.number - 256) then none else lookup k s.canonical_hashes_by_number))
    remove_blocks_on_finalized_exact = rw finalizes (
      remove_before_blocks f.number s v,
      remove_before_proof f.number s v,
      remove_before_canonical f.number s v,
    )
