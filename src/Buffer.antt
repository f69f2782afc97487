-- ===== src/Buffer.antt =====
-- crates/engine/src/tree/block_buffer.rs: blocks that wait for a parent or a proof. The metrics are
-- write-only gauges and are left out.
pub mod Lru
pub mod Descendants
pub mod Invariant
pub mod Insert
pub mod Pops
pub mod Evict
pub mod Drain
pub mod Links
pub mod Search
pub mod Evicted
pub mod Connects
pub mod Taken
pub mod Orphans
pub mod Ancestor
use zk_ress.Base.{
  ℕ, zero, suc, ◌+◌, Bool, true, false, not, ◌&&◌, List, [], ◌∷◌, ◌++◌, Option, none, some, leb,
  ltb, if◌then◌else◌, map_option, length,
}
use zk_ress.Base.Sets.{set_remove}
use zk_ress.Base.Maps.{Map, lookup, insert, remove, contains_key, insert_at}
use zk_ress.Primitives.{Block}
use Lru.{LruMap}

pub record BlockBuffer (M : LruMap) (B T : Type 0) : Type 0 where
  pub blocks : Map (Block B)
  pub proofs : Map T
  pub parent_to_child : Map (List ℕ)
  pub earliest_blocks : Map (List ℕ)
  pub lru : M.State

-- The loop of `lowest_ancestor`. A chain of stored blocks is no longer than the map, so its length
-- is enough fuel (Buffer/Ancestor.antt).
unfoldable pub climb : {B : Type 0} → ℕ → Map (Block B) → Block B → Block B
climb zero blocks current = current
climb (suc fuel) blocks current = elim (lookup current.parent_hash blocks) [
  | none ↦ current
  | some parent ↦ climb fuel blocks parent
]

-- The body shared by `remove_from_earliest_blocks` and `remove_from_parent`: a hash leaves the set
-- under a key, and an empty set leaves the map.
unfoldable pub store_or_remove : ℕ → List ℕ → Map (List ℕ) → Map (List ℕ)
store_or_remove key [] m = remove key m
store_or_remove key (h ∷ hs) m = insert key (h ∷ hs) m

unfoldable pub remove_at : ℕ → ℕ → Map (List ℕ) → Map (List ℕ)
unfolding store_or_remove
remove_at key hash m = elim (lookup key m) [
  | none ↦ m
  | some entry ↦ store_or_remove key (set_remove hash entry) m
]

-- The loop of `evict_old_blocks` that pops the entries up to a number: the hashes, and what is left
-- of the map.
unfoldable pub pop_until : ℕ → Map (List ℕ) → List ℕ × Map (List ℕ)
pop_until n [] = ([], [])
pop_until n ((number, hashes) ∷ m) =
    if ltb n number
    then ([], (number, hashes) ∷ m)
    else let (more, left) = pop_until n m in (hashes ++ more, left)

-- The work left in a loop over `parent_to_child`: the hashes that wait, and those in the map.
unfoldable pub total : Map (List ℕ) → ℕ
total [] = 0
total ((_, hashes) ∷ m) = length hashes + total m

module _ {M : LruMap} {B T : Type 0} where
  unfoldable pub new : ℕ → BlockBuffer M B T
  new limit = record {
    blocks = [];
    proofs = [];
    parent_to_child = [];
    earliest_blocks = [];
    lru = M.new limit;
  }

  unfoldable pub proof : BlockBuffer M B T → ℕ → Option T
  proof this hash = lookup hash this.proofs

  unfoldable pub lowest_ancestor : BlockBuffer M B T → ℕ → Option (Block B)
  unfolding climb
  lowest_ancestor this hash =
      map_option (climb (length this.blocks) this.blocks) (lookup hash this.blocks)

  unfoldable pub insert_proof : ℕ → T → BlockBuffer M B T → BlockBuffer M B T
  insert_proof hash p this = record this { proofs = insert hash p this.proofs }

  -- `remove_proof` returns the proof too; it is `proof this hash`.
  unfoldable pub remove_proof : ℕ → BlockBuffer M B T → BlockBuffer M B T
  remove_proof hash this = record this { proofs = remove hash this.proofs }

  -- Whether the oldest entry has to make room for `entry`.
  unfoldable pub is_full_for : ℕ → BlockBuffer M B T → Bool
  is_full_for entry this =
      not (M.peek entry this.lru) && leb (M.max_length this.lru) (M.len this.lru)

  unfoldable pub insert_hash_and_get_evicted : ℕ → BlockBuffer M B T → BlockBuffer M B T × Option ℕ
  unfolding is_full_for
  insert_hash_and_get_evicted entry this =
      if is_full_for entry this
      then (
        record this { lru = M.get_or_insert entry (M.pop_oldest this.lru).0 },
        (M.pop_oldest this.lru).1,
      )
      else (record this { lru = M.get_or_insert entry this.lru }, none)

  unfoldable pub remove_from_earliest_blocks : ℕ → ℕ → BlockBuffer M B T → BlockBuffer M B T
  unfolding remove_at
  remove_from_earliest_blocks number hash this = record this {
    earliest_blocks = remove_at number hash this.earliest_blocks;
  }

  unfoldable pub remove_from_parent : ℕ → ℕ → BlockBuffer M B T → BlockBuffer M B T
  unfolding remove_at
  remove_from_parent parent_hash hash this = record this {
    parent_to_child = remove_at parent_hash hash this.parent_to_child;
  }

  -- What `remove_block` and `evict_block` do to the other collections once the block is found.
  unfoldable pub detach : ℕ → Block B → BlockBuffer M B T → BlockBuffer M B T
  unfolding remove_at
  detach hash block this = record {
    blocks = remove hash this.blocks;
    proofs = remove hash this.proofs;
    parent_to_child = remove_at block.parent_hash hash this.parent_to_child;
    earliest_blocks = remove_at block.number hash this.earliest_blocks;
    lru = M.remove hash this.lru;
  }

  -- `remove_block`. Without the block or without its proof it returns `None`: a missing proof has
  -- nothing to remove, so the buffer stays as it is.
  unfoldable pub remove_block : ℕ → BlockBuffer M B T → BlockBuffer M B T × Option (Block B × T)
  unfolding detach
  remove_block hash this = elim (lookup hash this.blocks) [
    | none ↦ (this, none)
    | some block ↦ elim (lookup hash this.proofs) [
      | none ↦ (record this { proofs = remove hash this.proofs }, none)
      | some p ↦ (detach hash block this, some (block, p))
    ]
  ]

  unfoldable pub evict_block : ℕ → BlockBuffer M B T → BlockBuffer M B T × Option (Block B)
  unfolding detach
  evict_block hash this = elim (lookup hash this.blocks) [
    | none ↦ (this, none)
    | some block ↦ (detach hash block this, some block)
  ]

  -- The eviction at the end of `insert_block`.
  unfoldable pub evict_oldest : Option ℕ → BlockBuffer M B T → BlockBuffer M B T
  unfolding evict_block remove_from_parent
  evict_oldest none this = this
  evict_oldest (some evicted_hash) this =
      let (evicted, block) = evict_block evicted_hash this in
      elim block [ none ↦ evicted | some b ↦ remove_from_parent b.parent_hash evicted_hash evicted ]

  unfoldable pub insert_block : Block B → BlockBuffer M B T → BlockBuffer M B T
  unfolding insert_hash_and_get_evicted evict_oldest
  insert_block block this =
      let stored = record this {
        parent_to_child = insert_at block.parent_hash block.hash this.parent_to_child;
        earliest_blocks = insert_at block.number block.hash this.earliest_blocks;
        blocks = insert block.hash block this.blocks;
      } in
      let (touched, evicted_hash) = insert_hash_and_get_evicted block.hash stored in
      evict_oldest evicted_hash touched
