-- ===== src/ChainState/Pops.antt =====
-- crates/provider/src/chain_state.rs: what the two `while` loops of `remove_blocks_on_finalized` pop.
use zk_ress.Base.{
  ℕ, ◌<◌, ◌≡◌, refl, Bool, true, false, ◌||◌, List, [], ◌∷◌, none, arith, ltb, if◌then◌else◌,
  Bool-cases, inl, inr,
}
use zk_ress.Base.Sets.{mem}
use zk_ress.Base.Maps.{Map, lookup, remove, Above, IsSorted, at, lookup-remove, lookup_below}
use zk_ress.ChainState.{ChainStateInner, forget_blocks, pop_blocks_before, pop_canonical_before}

-- Whether a hash is listed under a number below `n`, at the front of the map.
unfoldable pub listed_before : ℕ → ℕ → Map (List ℕ) → Bool
listed_before h n [] = false
listed_before h n ((number, hashes) ∷ m) =
    if ltb number n then mem h hashes || listed_before h n m else false

pub pop_canonical_before-lookup :
    (n k : ℕ) (m : Map ℕ)
    → IsSorted m
    → lookup k (pop_canonical_before n m) ≡ (if ltb k n then none else lookup k m)
unfolding lookup pop_canonical_before
pop_canonical_before-lookup n k [] v = ground arith
pop_canonical_before-lookup n k ((j, h) ∷ m) v =
    ground (arith, pop_canonical_before-lookup n k m v.1, lookup_below j k m v.0)

pub pop_canonical_before-IsSorted :
    (n : ℕ) (m : Map ℕ) → IsSorted m → IsSorted (pop_canonical_before n m)
unfolding pop_canonical_before
pop_canonical_before-IsSorted n [] v = tt
pop_canonical_before-IsSorted n ((j, h) ∷ m) v =
    ground (arith, v, pop_canonical_before-IsSorted n m v.1)

module _ {B P : Type 0} where
  forget_blocks-lookup :
      (h : ℕ) (hashes : List ℕ) (s : ChainStateInner B P)
      → (lookup h (forget_blocks hashes s).blocks_by_hash
          ≡ (if mem h hashes then none else lookup h s.blocks_by_hash))
        × (lookup h (forget_blocks hashes s).proofs
            ≡ (if mem h hashes then none else lookup h s.proofs))
  unfolding forget_blocks mem
  forget_blocks-lookup h [] s = (refl, refl)
  forget_blocks-lookup h (x ∷ xs) s =
      let rest =
        forget_blocks-lookup h xs
          (record s { blocks_by_hash = remove x s.blocks_by_hash; proofs = remove x s.proofs }) in
      ground (arith, rest, lookup-remove x h s.blocks_by_hash, lookup-remove x h s.proofs)

  forget_blocks_canonical :
      (hashes : List ℕ) (s : ChainStateInner B P)
      → (forget_blocks hashes s).canonical_hashes_by_number ≡ s.canonical_hashes_by_number
  unfolding forget_blocks
  forget_blocks_canonical [] s = refl
  forget_blocks_canonical (x ∷ xs) s = forget_blocks_canonical xs _

  pub pop_blocks_before-lookup :
      (n h : ℕ) (m : Map (List ℕ)) (s : ChainStateInner B P)
      → (lookup h (pop_blocks_before n m s).blocks_by_hash
          ≡ (if listed_before h n m then none else lookup h s.blocks_by_hash))
        × (lookup h (pop_blocks_before n m s).proofs
            ≡ (if listed_before h n m then none else lookup h s.proofs))
  unfolding pop_blocks_before listed_before
  pop_blocks_before-lookup n h [] s = (refl, refl)
  pop_blocks_before-lookup n h ((k, hs) ∷ m) s =
      ground
        (arith, forget_blocks-lookup h hs s, pop_blocks_before-lookup n h m (forget_blocks hs s))

  pub pop_blocks_before_canonical :
      (n : ℕ) (m : Map (List ℕ)) (s : ChainStateInner B P)
      → (pop_blocks_before n m s).canonical_hashes_by_number ≡ s.canonical_hashes_by_number
  unfolding pop_blocks_before
  pop_blocks_before_canonical n [] s = refl
  pop_blocks_before_canonical n ((k, hs) ∷ m) s =
      ground
        (arith, forget_blocks_canonical hs s, pop_blocks_before_canonical n m (forget_blocks hs s))

  -- What is left of the index.
  pub pop_blocks_before_index :
      (n k : ℕ) (m : Map (List ℕ)) (s : ChainStateInner B P)
      → IsSorted m
      → lookup k (pop_blocks_before n m s).block_hashes_by_number
        ≡ (if ltb k n then none else lookup k m)
  unfolding pop_blocks_before lookup
  pop_blocks_before_index n k [] s v = ground arith
  pop_blocks_before_index n k ((j, hs) ∷ m) s v =
      ground (arith, pop_blocks_before_index n k m (forget_blocks hs s) v.1, lookup_below j k m v.0)

  pub pop_blocks_before-IsSorted :
      (n : ℕ) (m : Map (List ℕ)) (s : ChainStateInner B P)
      → IsSorted m
      → IsSorted (pop_blocks_before n m s).block_hashes_by_number
  unfolding pop_blocks_before
  pop_blocks_before-IsSorted n [] s v = tt
  pop_blocks_before-IsSorted n ((j, hs) ∷ m) s v =
      ground (arith, v, pop_blocks_before-IsSorted n m (forget_blocks hs s) v.1)

-- In a sorted index, that is to be listed under some number below `n`.
pub listed_before_intro :
    (h n k : ℕ) (m : Map (List ℕ))
    → IsSorted m
    → k < n
    → mem h (at k m) ≡ true
    → listed_before h n m ≡ true
unfolding lookup listed_before mem
listed_before_intro h n k [] v lt e = cc
listed_before_intro h n k ((j, hs) ∷ m) v lt e =
    ground (arith, listed_before_intro h n k m v.1, lookup_below j k m v.0)

unfoldable pub ListedBefore : ℕ → ℕ → Map (List ℕ) → Type 0
ListedBefore h n m = (k : ℕ) × (k < n) × (mem h (at k m) ≡ true)

ListedBefore-tail :
    (h n j : ℕ) (hs : List ℕ) (m : Map (List ℕ))
    → Above j m
    → ListedBefore h n m
    → ListedBefore h n ((j, hs) ∷ m)
unfolding lookup ListedBefore mem
ListedBefore-tail h n j hs m above (k, lt, found) =
    (k, lt, ground (arith, lookup_below j k m above))

pub listed_before_elim :
    (h n : ℕ) (m : Map (List ℕ)) → IsSorted m → listed_before h n m ≡ true → ListedBefore h n m
unfolding lookup listed_before ListedBefore
listed_before_elim h n [] v e = cc
listed_before_elim h n ((j, hs) ∷ m) v e = elim (Bool-cases (mem h hs)) [
  | inl here ↦ (j, ground arith, ground arith)
  | inr later ↦ ListedBefore-tail h n j hs m v.0 (listed_before_elim h n m v.1 (ground arith))
]
