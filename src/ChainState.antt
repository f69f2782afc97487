-- ===== src/ChainState.antt =====
-- crates/provider/src/chain_state.rs: the in-memory chain state. Each method holds the lock for all
-- of its body, so a call is one step on `ChainStateInner`.
pub mod Invariant
pub mod Pops
pub mod Finalized
pub mod Ancestors
pub mod Refines
use zk_ress.Base.{
  ℕ, zero, suc, ◌-◌, Bool, false, ◌&&◌, List, [], ◌∷◌, Option, none, some, ltb, leb, ◌==◌,
  if◌then◌else◌, map_option, length, ◌||◌,
}
use zk_ress.Base.Maps.{Map, lookup, insert, remove, insert_at}
use zk_ress.Primitives.{NumHash, SealedHeader, Block, parent_num_hash}

pub record ChainStateInner (B P : Type 0) : Type 0 where
  pub canonical_hashes_by_number : Map ℕ
  pub blocks_by_hash : Map (Block B)
  pub block_hashes_by_number : Map (List ℕ)
  pub proofs : Map P

-- `values().contains(hash)`
unfoldable pub has_value : ℕ → Map ℕ → Bool
has_value h [] = false
has_value h ((_, v) ∷ m) = h == v || has_value h m

-- How the walk of `block_hash` through the ancestors ends: at the block with the wanted number, or
-- at the first ancestor that is not stored.
pub data Walk : Type 0 where
  found : ℕ → Walk
  exhausted : NumHash → Walk

-- The loop of `block_hash`. No hash chain of stored blocks is longer than the map, so its length is
-- enough fuel (ChainState/Ancestors.antt).
unfoldable pub walk : {B : Type 0} → ℕ → Map (Block B) → ℕ → NumHash → Walk
walk zero blocks number ancestor = exhausted ancestor
walk (suc fuel) blocks number ancestor = elim (lookup ancestor.hash blocks) [
  | none ↦ exhausted ancestor
  | some block ↦
      if block.number == number
      then found block.hash
      else walk fuel blocks number (parent_num_hash block.header)
]

-- The proof is stored only if there is one.
unfoldable pub insert_proof : {P : Type 0} → ℕ → Option P → Map P → Map P
insert_proof hash none proofs = proofs
insert_proof hash (some p) proofs = insert hash p proofs

-- The loop of `remove_blocks_on_finalized` that pops canonical hashes below `n`.
unfoldable pub pop_canonical_before : ℕ → Map ℕ → Map ℕ
pop_canonical_before n [] = []
pop_canonical_before n ((number, hash) ∷ rest) =
    if ltb number n then pop_canonical_before n rest else (number, hash) ∷ rest

module _ {B P : Type 0} where
  -- `Default::default()`
  abbrev pub default : ChainStateInner B P
  default = record {
    canonical_hashes_by_number = [];
    blocks_by_hash = [];
    block_hashes_by_number = [];
    proofs = [];
  }

  unfoldable pub is_hash_canonical : ChainStateInner B P → ℕ → Bool
  is_hash_canonical this hash = has_value hash this.canonical_hashes_by_number

  -- What `block_hash` does once the executed blocks are exhausted at `ancestor`.
  unfoldable pub canonical_below : ChainStateInner B P → ℕ → NumHash → Option ℕ
  canonical_below this number ancestor = elim (lookup ancestor.number canonical) [
    | none ↦ none
    | some hash ↦
        if leb number ancestor.number && hash == ancestor.hash
        then lookup number canonical
        else none
  ]
    where
      canonical : Map ℕ
      canonical = this.canonical_hashes_by_number

  unfoldable pub block_hash : ChainStateInner B P → NumHash → ℕ → Option ℕ
  unfolding walk canonical_below
  block_hash this parent number =
      elim (walk (length this.blocks_by_hash) this.blocks_by_hash number parent) [
        | found hash ↦ some hash
        | exhausted ancestor ↦ canonical_below this number ancestor
      ]

  unfoldable pub insert_canonical_hash : ℕ → ℕ → ChainStateInner B P → ChainStateInner B P
  insert_canonical_hash number hash this = record this {
    canonical_hashes_by_number = insert number hash this.canonical_hashes_by_number;
  }

  unfoldable pub remove_canonical_hash : ℕ → ℕ → ChainStateInner B P → ChainStateInner B P
  remove_canonical_hash number hash this = elim (lookup number this.canonical_hashes_by_number) [
    | none ↦ this
    | some entry ↦
        if entry == hash
        then record this {
          canonical_hashes_by_number = remove number this.canonical_hashes_by_number;
        }
        else this
  ]

  unfoldable pub map_recovered_block {ℓ} :
      {R : Type ℓ} → ChainStateInner B P → ℕ → (Block B → R) → Option R
  map_recovered_block this hash to_type = map_option to_type (lookup hash this.blocks_by_hash)

  unfoldable pub block_number : ChainStateInner B P → ℕ → Option ℕ
  unfolding map_recovered_block
  block_number this hash = map_recovered_block this hash (λ b. b.number)

  -- `clone_header` leaves the cached hash behind: what is left is a parameter.
  unfoldable pub header {ℓ} : {H : Type ℓ} → (SealedHeader → H) → ChainStateInner B P → ℕ → Option H
  unfolding map_recovered_block
  header clone_header this hash = map_recovered_block this hash (λ b. clone_header b.header)

  unfoldable pub sealed_header : ChainStateInner B P → ℕ → Option SealedHeader
  unfolding map_recovered_block
  sealed_header this hash = map_recovered_block this hash (λ b. b.header)

  unfoldable pub block_body : ChainStateInner B P → ℕ → Option B
  unfolding map_recovered_block
  block_body this hash = map_recovered_block this hash (λ b. b.body)

  unfoldable pub sealed_block : ChainStateInner B P → ℕ → Option (Block B)
  unfolding map_recovered_block
  sealed_block this hash = map_recovered_block this hash (λ b. b)

  unfoldable pub recovered_block : ChainStateInner B P → ℕ → Option (Block B)
  unfolding map_recovered_block
  recovered_block this hash = map_recovered_block this hash (λ b. b)

  unfoldable pub proof : ChainStateInner B P → ℕ → Option P
  proof this hash = lookup hash this.proofs

  unfoldable pub insert_block : Block B → Option P → ChainStateInner B P → ChainStateInner B P
  unfolding insert_proof
  insert_block block maybe_proof this = record this {
    block_hashes_by_number = insert_at block.number block.hash this.block_hashes_by_number;
    blocks_by_hash = insert block.hash block this.blocks_by_hash;
    proofs = insert_proof block.hash maybe_proof this.proofs;
  }

  -- The inner loop over the hashes of one number.
  unfoldable pub forget_blocks : List ℕ → ChainStateInner B P → ChainStateInner B P
  forget_blocks [] this = this
  forget_blocks (hash ∷ hashes) this = forget_blocks hashes (record this {
    blocks_by_hash = remove hash this.blocks_by_hash;
    proofs = remove hash this.proofs;
  })

  -- The `while` loop that pops the first entry of `block_hashes_by_number` while its number is below
  -- the finalized one. The list is what is left of that map.
  unfoldable pub pop_blocks_before : ℕ → Map (List ℕ) → ChainStateInner B P → ChainStateInner B P
  unfolding forget_blocks
  pop_blocks_before n [] this = record this { block_hashes_by_number = [] }
  pop_blocks_before n ((number, hashes) ∷ rest) this =
      if ltb number n
      then pop_blocks_before n rest (forget_blocks hashes this)
      else record this { block_hashes_by_number = (number, hashes) ∷ rest }

  -- `finalized_number.saturating_sub(256)` is the truncated subtraction.
  unfoldable pub remove_before : ℕ → ChainStateInner B P → ChainStateInner B P
  unfolding pop_blocks_before pop_canonical_before
  remove_before n this =
      let popped = pop_blocks_before n this.block_hashes_by_number this in
      record popped {
        canonical_hashes_by_number =
            pop_canonical_before (n - 256) popped.canonical_hashes_by_number;
      }

  unfoldable pub remove_blocks_on_finalized : ℕ → ChainStateInner B P → ChainStateInner B P
  unfolding remove_before
  remove_blocks_on_finalized finalized_hash this =
      elim (lookup finalized_hash this.blocks_by_hash) [
        | none ↦ this
        | some finalized ↦ remove_before finalized.number this
      ]
