-- ===== src/Buffer/Invariant.antt =====
-- crates/engine/src/tree/block_buffer.rs: the invariant of the buffer, and the operations on one block.
use zk_ress.Base.{
  ℕ, ◌≤◌, ◌<◌, ◌≡◌, true, false, List, [], ◌∷◌, some, arith, ◌==◌, if◌then◌else◌, Option-cases,
  is_some, inl, inr, length,
}
use zk_ress.Base.Sets.{mem, set_remove, mem-set_remove}
use zk_ress.Base.Maps.{
  Map, lookup, IsSorted, at, lookup-insert, lookup-remove, IsSorted-insert, IsSorted-remove,
}
use zk_ress.Buffer.{
  BlockBuffer, store_or_remove, remove_at, detach, remove_block, evict_block, insert_proof,
  remove_proof, new,
}
use zk_ress.Buffer.Lru.{LruMap, IsLru}
use zk_ress.Primitives.{Block}

-- Each block is stored under its own hash, the recency list holds exactly the stored hashes and no
-- more of them than the limit, and each block is listed under its number.
pub record IsValid {M : LruMap} {B T : Type 0} (b : BlockBuffer M B T) : Type 0 where
  pub own : (h : ℕ) (x : Block B) → lookup h b.blocks ≡ some x → x.hash ≡ h
  pub tracked : (h : ℕ) → mem h (M.keys b.lru) ≡ is_some (lookup h b.blocks)
  pub dated :
      (h : ℕ) (x : Block B)
      → lookup h b.blocks ≡ some x
      → mem h (at x.number b.earliest_blocks) ≡ true
  pub bounded : length (M.keys b.lru) ≤ M.max_length b.lru
  pub positive : 0 < M.max_length b.lru
  pub dates_sorted : IsSorted b.earliest_blocks
  pub parents_sorted : IsSorted b.parent_to_child

-- The invariant of a buffer from which a hash is about to be taken: the recency list need not tell
-- whether that hash is stored.
pub record IsValidBut {M : LruMap} {B T : Type 0} (hash : ℕ) (b : BlockBuffer M B T) : Type 0 where
  pub own : (h : ℕ) (x : Block B) → lookup h b.blocks ≡ some x → x.hash ≡ h
  pub tracked : (h : ℕ) → (hash == h) ≡ false → mem h (M.keys b.lru) ≡ is_some (lookup h b.blocks)
  pub dated :
      (h : ℕ) (x : Block B)
      → lookup h b.blocks ≡ some x
      → mem h (at x.number b.earliest_blocks) ≡ true
  pub bounded : length (M.keys b.lru) ≤ M.max_length b.lru
  pub positive : 0 < M.max_length b.lru
  pub dates_sorted : IsSorted b.earliest_blocks
  pub parents_sorted : IsSorted b.parent_to_child

store_or_remove-at :
    (k j x : ℕ) (hs : List ℕ) (m : Map (List ℕ))
    → mem x (at j (store_or_remove k hs m)) ≡ (if k == j then mem x hs else mem x (at j m))
unfolding store_or_remove mem
store_or_remove-at k j x [] m = ground (arith, lookup-remove k j m)
store_or_remove-at k j x (h ∷ hs) m = ground (arith, lookup-insert k j (h ∷ hs) m)

-- Exactly one set loses exactly one hash.
pub mem-remove_at :
    (k h j x : ℕ) (m : Map (List ℕ))
    → mem x (at j (remove_at k h m))
      ≡ (if k == j then (if h == x then false else mem x (at j m)) else mem x (at j m))
unfolding remove_at mem
mem-remove_at k h j x m = elim (Option-cases (lookup k m)) [
  | inl missing ↦ ground arith
  | inr (entry, present) ↦
      ground (arith, store_or_remove-at k j x (set_remove h entry) m, mem-set_remove x h entry)
]

store_or_remove-IsSorted :
    (k : ℕ) (hs : List ℕ) (m : Map (List ℕ)) → IsSorted m → IsSorted (store_or_remove k hs m)
unfolding store_or_remove
store_or_remove-IsSorted k [] m v = IsSorted-remove k m v
store_or_remove-IsSorted k (h ∷ hs) m v = IsSorted-insert k (h ∷ hs) m v

pub remove_at-IsSorted : (k h : ℕ) (m : Map (List ℕ)) → IsSorted m → IsSorted (remove_at k h m)
unfolding remove_at
remove_at-IsSorted k h m v = elim (Option-cases (lookup k m)) [
  | inl missing ↦ rw (missing, remove_at) v
  | inr (e, present) ↦ rw (present, remove_at) (store_or_remove-IsSorted k (set_remove h e) m v)
]

module _ {M : LruMap} {B T : Type 0} (laws : IsLru M) where
  pub new-IsValid : (limit : ℕ) → 0 < limit → IsValid {M = M} {B = B} {T = T} (new limit)
  unfolding new lookup mem
  new-IsValid limit h = record {
    own = λ h x e. cc;
    tracked = λ h. ground (arith, laws.keys-new limit);
    dated = λ h x e. cc;
    bounded = rw (laws.keys-new limit) (omega arith);
    positive = rw (laws.max_length-new limit) h;
    dates_sorted = tt;
    parents_sorted = tt;
  }

  -- The proofs are free.
  pub insert_proof-IsValid :
      (h : ℕ) (p : T) (b : BlockBuffer M B T) → IsValid b → IsValid (insert_proof h p b)
  unfolding insert_proof
  insert_proof-IsValid h p b v = record {
    own = v.own;
    tracked = v.tracked;
    dated = v.dated;
    bounded = v.bounded;
    positive = v.positive;
    dates_sorted = v.dates_sorted;
    parents_sorted = v.parents_sorted;
  }

  pub remove_proof-IsValid :
      (h : ℕ) (b : BlockBuffer M B T) → IsValid b → IsValid (remove_proof h b)
  unfolding remove_proof
  remove_proof-IsValid h b v = record {
    own = v.own;
    tracked = v.tracked;
    dated = v.dated;
    bounded = v.bounded;
    positive = v.positive;
    dates_sorted = v.dates_sorted;
    parents_sorted = v.parents_sorted;
  }

  pub IsValid-but : (hash : ℕ) (b : BlockBuffer M B T) → IsValid b → IsValidBut hash b
  IsValid-but hash b v = record {
    own = v.own;
    tracked = λ h _. v.tracked h;
    dated = v.dated;
    bounded = v.bounded;
    positive = v.positive;
    dates_sorted = v.dates_sorted;
    parents_sorted = v.parents_sorted;
  }

  pub detach-IsValid :
      (hash : ℕ) (block : Block B) (b : BlockBuffer M B T)
      → IsValidBut hash b
      → IsValid (detach hash block b)
  unfolding detach
  detach-IsValid hash block b v = record {
    own = λ h x e. v.own h x (ground (arith, lookup-remove hash h b.blocks));
    tracked = λ h.
        ground (arith, lookup-remove hash h b.blocks, laws.keys-remove hash h b.lru, v.tracked h);
    dated = λ h x e. ground (
      arith,
      lookup-remove hash h b.blocks,
      mem-remove_at block.number hash x.number h b.earliest_blocks,
      v.dated h x,
    );
    bounded =
        omega
          (arith, v.bounded, laws.length-remove-le hash b.lru, laws.max_length-remove hash b.lru);
    positive = rw (laws.max_length-remove hash b.lru) v.positive;
    dates_sorted = remove_at-IsSorted block.number hash b.earliest_blocks v.dates_sorted;
    parents_sorted = remove_at-IsSorted block.parent_hash hash b.parent_to_child v.parents_sorted;
  }

  pub remove_block-IsValid :
      (hash : ℕ) (b : BlockBuffer M B T) → IsValid b → IsValid (remove_block hash b).0
  unfolding remove_block remove_proof
  remove_block-IsValid hash b v = elim (Option-cases (lookup hash b.blocks)) [
    | inl missing ↦ rw (missing, remove_block) v
    | inr (x, present) ↦ elim (Option-cases (lookup hash b.proofs)) [
      | inl unproved ↦ rw (present, unproved, remove_block) (remove_proof-IsValid hash b v)
      | inr (p, proved) ↦
          rw (present, proved, remove_block) (detach-IsValid hash x b (IsValid-but hash b v))
    ]
  ]

  pub evict_block-IsValid :
      (hash : ℕ) (b : BlockBuffer M B T) → IsValid b → IsValid (evict_block hash b).0
  unfolding evict_block
  evict_block-IsValid hash b v = elim (Option-cases (lookup hash b.blocks)) [
    | inl missing ↦ rw (missing, evict_block) v
    | inr (x, present) ↦ rw (present, evict_block) (detach-IsValid hash x b (IsValid-but hash b v))
  ]
