-- ===== src/Examples/ChainStates.antt =====
-- Runs on a small chain state.
use zk_ress.Base.{
  ℕ, ◌≡◌, ◌-◌, ◌⊎◌, ◌↔◌, refl, true, none, some, arith, ◌==◌, if◌then◌else◌, ltb, Bool-cases, inl,
  inr,
}
use zk_ress.Base.Sets.{mem}
use zk_ress.Base.Maps.{lookup, at}
use zk_ress.Blocks.{IsAcyclic}
use zk_ress.ChainState.{block_hash, remove_blocks_on_finalized}
use zk_ress.ChainState.Ancestors.{FoundAt, EndsAt, CanonicalBelow, block_hash_lem}
use zk_ress.ChainState.Finalized.{unless_before, unless_old, remove_blocks_on_finalized_exact}
use zk_ress.ChainState.Invariant.{IsConsistent}
use zk_ress.Examples.Samples.{first_block, second_block, two_stored}
use zk_ress.Primitives.{NumHash, Block}

pub two_stored-IsConsistent : IsConsistent two_stored
unfolding lookup mem
two_stored-IsConsistent = record {
  own = λ h b e. ground arith;
  listed = λ h b e. ground arith;
  kept = stored_kept;
  numbers_sorted = ground arith;
  canonical_sorted = ground arith;
}
  where
    stored_kept :
        (n h : ℕ)
        → mem h (at n two_stored.block_hashes_by_number) ≡ true
        → (b : Block Unit) × (lookup h two_stored.blocks_by_hash ≡ some b) × (b.number ≡ n)
    stored_kept n h e = elim (Bool-cases (n == 1)) [
      | inl first ↦ (first_block, ground arith, ground arith)
      | inr later ↦ (second_block, ground arith, ground arith)
    ]

-- The hash serves as the rank.
pub two_stored-IsAcyclic : IsAcyclic (λ h. h) two_stored.blocks_by_hash
unfolding lookup
two_stored-IsAcyclic h b e = ground arith

remove_blocks_on_finalized_exact_example :
    ((h : ℕ)
      → lookup h (remove_blocks_on_finalized 12 two_stored).blocks_by_hash
        ≡ unless_before 2 (lookup h two_stored.blocks_by_hash))
    × ((h : ℕ)
        → lookup h (remove_blocks_on_finalized 12 two_stored).proofs
          ≡ unless_old 2 (lookup h two_stored.blocks_by_hash) (lookup h two_stored.proofs))
    × ((k : ℕ)
        → lookup k (remove_blocks_on_finalized 12 two_stored).canonical_hashes_by_number
          ≡ (if ltb k (2 - 256) then none else lookup k two_stored.canonical_hashes_by_number))
remove_blocks_on_finalized_exact_example =
    remove_blocks_on_finalized_exact two_stored two_stored-IsConsistent 12 second_block
      second_stored
  where
    second_stored : lookup 12 two_stored.blocks_by_hash ≡ some second_block
    second_stored = unfold lookup in refl

block_hash_lem_example :
    ((x : ℕ) × FoundAt two_stored.blocks_by_hash 1 12 x
      × (block_hash two_stored (record { number = 2; hash = 12 }) 1 ≡ some x))
    ⊎ ((last : NumHash) × (steps : ℕ) × EndsAt two_stored.blocks_by_hash 1
          (record { number = 2; hash = 12 })
          last
          steps
        × (lookup last.hash two_stored.blocks_by_hash ≡ none)
        × ((x : ℕ)
            → (block_hash two_stored (record { number = 2; hash = 12 }) 1 ≡ some x)
              ↔ CanonicalBelow two_stored 1 last x))
block_hash_lem_example =
    block_hash_lem two_stored (λ h. h) (record { number = 2; hash = 12 }) 1 two_stored-IsAcyclic
