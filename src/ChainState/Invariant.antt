-- ===== src/ChainState/Invariant.antt =====
-- crates/provider/src/chain_state.rs: the invariant of the chain state, and the operations that insert.
use zk_ress.Base.{ℕ, ◌≡◌, true, Option, some, arith, ◌==◌, Bool-cases, Option-cases, inl, inr}
use zk_ress.Base.Sets.{mem}
use zk_ress.Base.Maps.{
  lookup, insert, IsSorted, at, insert_at, lookup-insert, IsSorted-insert, IsSorted-remove,
  mem-insert_at,
}
use zk_ress.ChainState.{
  ChainStateInner, insert_block, insert_canonical_hash, remove_canonical_hash, default,
}
use zk_ress.Primitives.{Block}

-- Each block is stored under its own hash, and `block_hashes_by_number` lists exactly the stored
-- blocks, by number. Both `BTreeMap`s are in order.
pub record IsConsistent {B P : Type 0} (s : ChainStateInner B P) : Type 0 where
  pub own : (h : ℕ) (b : Block B) → lookup h s.blocks_by_hash ≡ some b → b.hash ≡ h
  pub listed :
      (h : ℕ) (b : Block B)
      → lookup h s.blocks_by_hash ≡ some b
      → mem h (at b.number s.block_hashes_by_number) ≡ true
  pub kept :
      (n h : ℕ)
      → mem h (at n s.block_hashes_by_number) ≡ true
      → (b : Block B) × (lookup h s.blocks_by_hash ≡ some b) × (b.number ≡ n)
  pub numbers_sorted : IsSorted s.block_hashes_by_number
  pub canonical_sorted : IsSorted s.canonical_hashes_by_number

module _ {B P : Type 0} where
  pub default-IsConsistent : IsConsistent {B = B} {P = P} default
  unfolding lookup mem
  default-IsConsistent = record {
    own = λ h b e. cc;
    listed = λ h b e. cc;
    kept = λ n h e. cc;
    numbers_sorted = tt;
    canonical_sorted = tt;
  }

  -- A hash that is stored already stands for a block of the same number.
  abbrev pub Agrees : Block B → ChainStateInner B P → Type 0
  Agrees block s =
      (old : Block B) → lookup block.hash s.blocks_by_hash ≡ some old → old.number ≡ block.number

  insert_block_kept :
      (block : Block B) (maybe_proof : Option P) (s : ChainStateInner B P) (n h : ℕ)
      → Agrees block s
      → IsConsistent s
      → mem h (at n (insert_at block.number block.hash s.block_hashes_by_number)) ≡ true
      → (b : Block B) × (lookup h (insert block.hash block s.blocks_by_hash) ≡ some b)
        × (b.number ≡ n)
  insert_block_kept block maybe_proof s n h agrees v e =
      let listed = mem-insert_at block.number block.hash n h s.block_hashes_by_number in
      let looked = lookup-insert block.hash h block s.blocks_by_hash in
      elim (Bool-cases (block.hash == h)) [
        | inl same ↦ (
          block,
          ground arith,
          elim (Bool-cases (block.number == n)) [
            | inl here ↦ ground arith
            | inr other ↦
                let (old, found, number) = v.kept n h (ground arith) in ground (arith, agrees old)
          ],
        )
        | inr other ↦
            let (b, found, number) = v.kept n h (ground arith) in (b, ground arith, number)
      ]

  -- Storing a block, with or without a proof, keeps the invariant of the chain state, if a block
  -- stored under its hash already has its number.
  pub insert_block-IsConsistent :
      (block : Block B) (maybe_proof : Option P) (s : ChainStateInner B P)
      → Agrees block s
      → IsConsistent s
      → IsConsistent (insert_block block maybe_proof s)
  unfolding insert_block insert_at
  insert_block-IsConsistent block maybe_proof s agrees v = record {
    own = λ h b e. ground (arith, lookup-insert block.hash h block s.blocks_by_hash, v.own h b);
    listed = λ h b e. ground (
      arith,
      lookup-insert block.hash h block s.blocks_by_hash,
      mem-insert_at block.number block.hash b.number h s.block_hashes_by_number,
      v.listed h b,
    );
    kept = λ n h. insert_block_kept block maybe_proof s n h agrees v;
    numbers_sorted = IsSorted-insert block.number _ s.block_hashes_by_number v.numbers_sorted;
    canonical_sorted = v.canonical_sorted;
  }

  pub insert_canonical_hash-IsConsistent :
      (number hash : ℕ) (s : ChainStateInner B P)
      → IsConsistent s
      → IsConsistent (insert_canonical_hash number hash s)
  unfolding insert_canonical_hash
  insert_canonical_hash-IsConsistent number hash s v = record {
    own = v.own;
    listed = v.listed;
    kept = v.kept;
    numbers_sorted = v.numbers_sorted;
    canonical_sorted = IsSorted-insert number hash s.canonical_hashes_by_number v.canonical_sorted;
  }

  pub remove_canonical_hash-IsConsistent :
      (number hash : ℕ) (s : ChainStateInner B P)
      → IsConsistent s
      → IsConsistent (remove_canonical_hash number hash s)
  unfolding remove_canonical_hash
  remove_canonical_hash-IsConsistent number hash s v =
      elim (Option-cases (lookup number s.canonical_hashes_by_number)) [
        | inl missing ↦ rw (missing, remove_canonical_hash) v
        | inr (entry, present) ↦ elim (Bool-cases (entry == hash)) [
          | inl same ↦
              rw (present, same, remove_canonical_hash)
                (record {
                  own = v.own;
                  listed = v.listed;
                  kept = v.kept;
                  numbers_sorted = v.numbers_sorted;
                  canonical_sorted =
                      IsSorted-remove number s.canonical_hashes_by_number v.canonical_sorted;
                })
          | inr other ↦ rw (present, other, remove_canonical_hash) v
        ]
      ]
