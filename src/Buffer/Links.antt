-- ===== src/Buffer/Links.antt =====
-- crates/engine/src/tree/block_buffer.rs: what evictions do to the links from parents to children.
use zk_ress.Base.{
  ℕ, ◌≤◌, ◌≡◌, ◌⊎◌, refl, Bool, true, false, ◌||◌, List, [], ◌∷◌, arith, ◌==◌, Bool-cases,
  Option-cases, inl, inr, ◌∙◌,
}
use zk_ress.Base.Sets.{mem, mem-append}
use zk_ress.Base.Maps.{Map, lookup, IsSorted, at, lookup_below}
use zk_ress.Buffer.{BlockBuffer, pop_until, detach, evict_block, total}
use zk_ress.Buffer.Descendants.{extend, evict_each}
use zk_ress.Buffer.Drain.{total-remove_at-le}
use zk_ress.Buffer.Invariant.{mem-remove_at, remove_at-IsSorted}
use zk_ress.Buffer.Lru.{LruMap}

pub mem-extend : (h : ℕ) (cs stack : List ℕ) → mem h (extend cs stack) ≡ (mem h cs || mem h stack)
unfolding mem extend
mem-extend h [] stack = refl
mem-extend h (c ∷ cs) stack = ground (arith, mem-extend h cs (c ∷ stack))

-- A popped hash was listed under a number up to `n`.
pub pop_until_listed :
    (n h : ℕ) (m : Map (List ℕ))
    → IsSorted m
    → mem h (pop_until n m).0 ≡ true
    → (k : ℕ) × (k ≤ n) × (mem h (at k m) ≡ true)
unfolding pop_until lookup mem
pop_until_listed n h [] v e = cc
pop_until_listed n h ((j, hs) ∷ m) v e = elim (Bool-cases (mem h hs)) [
  | inl here ↦ (j, ground arith, ground arith)
  | inr later ↦
      let (k, le, found) =
        pop_until_listed n h m v.1 (ground (arith, mem-append h hs (pop_until n m).0)) in
      (k, le, ground (arith, lookup_below j k m v.0))
]

module _ {M : LruMap} {B T : Type 0} where
  -- Whether a hash is listed as the child of another.
  abbrev pub linked : BlockBuffer M B T → ℕ → ℕ → Bool
  linked b p h = mem h (at p b.parent_to_child)

  -- What is to go: the hashes listed under a number up to `n`, and what descends from them by the links.
  pub data Evicted (n : ℕ) (b : BlockBuffer M B T) : ℕ → Type 0 where
    listed : {h : ℕ} (k : ℕ) → k ≤ n → mem h (at k b.earliest_blocks) ≡ true → Evicted n b h
    child : {p h : ℕ} → Evicted n b p → linked b p h ≡ true → Evicted n b h

  -- An eviction takes away only links to the hash that goes.
  pub evict_block-linked :
      (c p h : ℕ) (b : BlockBuffer M B T)
      → (linked (evict_block c b).0 p h ≡ linked b p h)
        ⊎ ((linked (evict_block c b).0 p h ≡ false) × ((c == h) ≡ true))
  unfolding evict_block detach
  evict_block-linked c p h b = elim (Option-cases (lookup c b.blocks)) [
    | inl missing ↦ rw (missing, evict_block) (inl refl)
    | inr (x, present) ↦
        let removed = mem-remove_at x.parent_hash c p h b.parent_to_child in
        elim (Bool-cases (c == h)) [
          | inl same ↦ elim (Bool-cases (x.parent_hash == p)) [
            | inl here ↦ rw (present, evict_block) (inr (ground arith, same))
            | inr there ↦ rw (present, evict_block) (inl (ground arith))
          ]
          | inr other ↦ rw (present, evict_block) (inl (ground arith))
        ]
  ]

  pub evict_each-linked :
      (cs : List ℕ) (p h : ℕ) (b : BlockBuffer M B T)
      → (linked (evict_each cs b) p h ≡ linked b p h)
        ⊎ ((linked (evict_each cs b) p h ≡ false) × (mem h cs ≡ true))
  unfolding evict_each mem
  evict_each-linked [] p h b = inl refl
  evict_each-linked (c ∷ cs) p h b = elim (evict_each-linked cs p h (evict_block c b).0) [
    | inr (gone, among) ↦ inr (gone, ground arith)
    | inl same ↦ elim (evict_block-linked c p h b) [
      | inl as_before ↦ inl (same ∙ as_before)
      | inr (gone, is_c) ↦ inr (same ∙ gone, ground arith)
    ]
  ]

  pub evict_block-load :
      (c : ℕ) (b : BlockBuffer M B T)
      → IsSorted b.parent_to_child
      → (total (evict_block c b).0.parent_to_child ≤ total b.parent_to_child)
        × IsSorted (evict_block c b).0.parent_to_child
  unfolding evict_block detach
  evict_block-load c b v = elim (Option-cases (lookup c b.blocks)) [
    | inl missing ↦ rw (missing, evict_block) (omega arith, v)
    | inr (x, present) ↦
        rw (present, evict_block)
          (
            total-remove_at-le x.parent_hash c b.parent_to_child v,
            remove_at-IsSorted x.parent_hash c b.parent_to_child v,
          )
  ]

  pub evict_each-load :
      (cs : List ℕ) (b : BlockBuffer M B T)
      → IsSorted b.parent_to_child
      → (total (evict_each cs b).parent_to_child ≤ total b.parent_to_child)
        × IsSorted (evict_each cs b).parent_to_child
  unfolding evict_each
  evict_each-load [] b v = (omega arith, v)
  evict_each-load (c ∷ cs) b v =
      let (le, w) = evict_block-load c b v in
      let (le', w') = evict_each-load cs (evict_block c b).0 w in (omega arith, w')
