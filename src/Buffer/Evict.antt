-- ===== src/Buffer/Evict.antt =====
-- crates/engine/src/tree/block_buffer.rs: what `evict_old_blocks` removes.
use zk_ress.Base.{
  ℕ, zero, suc, ◌≤◌, ◌<◌, ◌≡◌, refl, true, false, List, [], ◌∷◌, Option, none, some, arith, ltb,
  ◌==◌, if◌then◌else◌, Bool-cases, Option-cases, is_some, inl, inr, length,
}
use zk_ress.Base.Sets.{mem}
use zk_ress.Base.Maps.{lookup, IsSorted, at, lookup-remove, IsSorted-remove}
use zk_ress.Buffer.{BlockBuffer, pop_until, detach, evict_block}
use zk_ress.Buffer.Descendants.{
  extend, evict_each, unlink, evict_loop, evict_children, evict_old_blocks,
}
use zk_ress.Buffer.Invariant.{IsValid, mem-remove_at, remove_at-IsSorted, evict_block-IsValid}
use zk_ress.Buffer.Lru.{LruMap, IsLru}
use zk_ress.Primitives.{Block}
use zk_ress.Buffer.Pops.{pop_until-popped, pop_until-left, pop_until-IsSorted}

-- The invariant, but for hashes that are to be evicted: those need not be listed by number.
pub record IsValidUpTo {M : LruMap} {B T : Type 0} (hashes : List ℕ) (b : BlockBuffer M B T)
    : Type 0 where
  pub own : (h : ℕ) (x : Block B) → lookup h b.blocks ≡ some x → x.hash ≡ h
  pub tracked : (h : ℕ) → mem h (M.keys b.lru) ≡ is_some (lookup h b.blocks)
  pub dated :
      (h : ℕ) (x : Block B)
      → lookup h b.blocks ≡ some x
      → mem h hashes ≡ false
      → mem h (at x.number b.earliest_blocks) ≡ true
  pub bounded : length (M.keys b.lru) ≤ M.max_length b.lru
  pub positive : 0 < M.max_length b.lru
  pub dates_sorted : IsSorted b.earliest_blocks
  pub parents_sorted : IsSorted b.parent_to_child

module _ {M : LruMap} {B T : Type 0} where
  evict_block-lookup :
      (c h : ℕ) (b : BlockBuffer M B T)
      → lookup h (evict_block c b).0.blocks ≡ (if c == h then none else lookup h b.blocks)
  unfolding evict_block
  evict_block-lookup c h b = ground (arith, lookup-remove c h b.blocks)

  pub evict_each-lookup :
      (cs : List ℕ) (h : ℕ) (b : BlockBuffer M B T)
      → lookup h (evict_each cs b).blocks ≡ (if mem h cs then none else lookup h b.blocks)
  unfolding evict_each mem
  evict_each-lookup [] h b = refl
  evict_each-lookup (c ∷ cs) h b =
      ground (arith, evict_each-lookup cs h (evict_block c b).0, evict_block-lookup c h b)

  -- No eviction changes a block that stays.
  pub evict_loop-lookup :
      (fuel : ℕ) (stack : List ℕ) (b : BlockBuffer M B T) (h : ℕ) (x : Block B)
      → lookup h (evict_loop fuel stack b).blocks ≡ some x
      → lookup h b.blocks ≡ some x
  unfolding evict_loop
  evict_loop-lookup zero stack b h x e = e
  evict_loop-lookup (suc fuel) [] b h x e = e
  evict_loop-lookup (suc fuel) (p ∷ stack) b h x e =
      elim (Option-cases (lookup p b.parent_to_child)) [
        | inl missing ↦ evict_loop-lookup fuel stack b h x (rw (missing, evict_loop) at e)
        | inr (children, present) ↦
            let rest =
              evict_loop-lookup fuel (extend children stack) (evict_each children (unlink p b)) h x
                (rw (present, evict_loop) at e) in
            ground (arith, evict_each-lookup children h (unlink p b))
      ]

module _ {M : LruMap} {B T : Type 0} (laws : IsLru M) where
  detach-IsValidUpTo :
      (c : ℕ) (cs : List ℕ) (block : Block B) (b : BlockBuffer M B T)
      → IsValidUpTo (c ∷ cs) b
      → IsValidUpTo cs (detach c block b)
  unfolding detach mem
  detach-IsValidUpTo c cs block b v = record {
    own = λ h x e. v.own h x (ground (arith, lookup-remove c h b.blocks));
    tracked =
        λ h. ground (arith, lookup-remove c h b.blocks, laws.keys-remove c h b.lru, v.tracked h);
    dated = λ h x e other. ground (
      arith,
      lookup-remove c h b.blocks,
      mem-remove_at block.number c x.number h b.earliest_blocks,
      v.dated h x,
    );
    bounded =
        omega (arith, v.bounded, laws.length-remove-le c b.lru, laws.max_length-remove c b.lru);
    positive = rw (laws.max_length-remove c b.lru) v.positive;
    dates_sorted = remove_at-IsSorted block.number c b.earliest_blocks v.dates_sorted;
    parents_sorted = remove_at-IsSorted block.parent_hash c b.parent_to_child v.parents_sorted;
  }

  evict_block-IsValidUpTo :
      (c : ℕ) (cs : List ℕ) (b : BlockBuffer M B T)
      → IsValidUpTo (c ∷ cs) b
      → IsValidUpTo cs (evict_block c b).0
  unfolding evict_block mem
  evict_block-IsValidUpTo c cs b v = elim (Option-cases (lookup c b.blocks)) [
    | inl missing ↦
        rw (missing, evict_block)
          (record {
            own = v.own;
            tracked = v.tracked;
            dated = λ h x e other. v.dated h x e (ground arith);
            bounded = v.bounded;
            positive = v.positive;
            dates_sorted = v.dates_sorted;
            parents_sorted = v.parents_sorted;
          })
    | inr (block, present) ↦ rw (present, evict_block) (detach-IsValidUpTo c cs block b v)
  ]

  evict_each-IsValidUpTo :
      (cs : List ℕ) (b : BlockBuffer M B T) → IsValidUpTo cs b → IsValidUpTo [] (evict_each cs b)
  unfolding evict_each
  evict_each-IsValidUpTo [] b v = v
  evict_each-IsValidUpTo (c ∷ cs) b v =
      evict_each-IsValidUpTo cs (evict_block c b).0 (evict_block-IsValidUpTo c cs b v)

  up_to_nil-IsValid : (b : BlockBuffer M B T) → IsValidUpTo [] b → IsValid b
  unfolding mem
  up_to_nil-IsValid b v = record {
    own = v.own;
    tracked = v.tracked;
    dated = λ h x e. v.dated h x e refl;
    bounded = v.bounded;
    positive = v.positive;
    dates_sorted = v.dates_sorted;
    parents_sorted = v.parents_sorted;
  }

  -- Without the entries up to `n`, the blocks that they list are to be evicted.
  popped-IsValidUpTo :
      (n : ℕ) (b : BlockBuffer M B T)
      → IsValid b
      → IsValidUpTo
          (pop_until n b.earliest_blocks).0
          (record b { earliest_blocks = (pop_until n b.earliest_blocks).1 })
  popped-IsValidUpTo n b v = record {
    own = v.own;
    tracked = v.tracked;
    dated = λ h x e kept. elim (Bool-cases (ltb n x.number)) [
      | inl late ↦ ground (
        arith,
        pop_until-left n x.number b.earliest_blocks v.dates_sorted (ground arith),
        v.dated h x e,
      )
      | inr early ↦ absurd (
          ground (
            arith,
            pop_until-popped n x.number h b.earliest_blocks v.dates_sorted (ground arith)
                (v.dated h x e),
          ))
    ];
    bounded = v.bounded;
    positive = v.positive;
    dates_sorted = pop_until-IsSorted n b.earliest_blocks v.dates_sorted;
    parents_sorted = v.parents_sorted;
  }

  survives :
      (n : ℕ) (b : BlockBuffer M B T) (h : ℕ) (x : Block B) {left : Option (Block B)}
      → IsValid b
      → left ≡ (if mem h (pop_until n b.earliest_blocks).0 then none else lookup h b.blocks)
      → left ≡ some x
      → (n < x.number) × (lookup h b.blocks ≡ some x)
  survives n b h x v e f = elim (Bool-cases (ltb n x.number)) [
    | inl late ↦ ground arith
    | inr early ↦ absurd (
        ground (
          arith,
          v.dated h x,
          pop_until-popped n x.number h b.earliest_blocks v.dates_sorted (ground arith),
        ))
  ]

  pub unlink-IsValid : (p : ℕ) (b : BlockBuffer M B T) → IsValid b → IsValid (unlink p b)
  unlink-IsValid p b v = record {
    own = v.own;
    tracked = v.tracked;
    dated = v.dated;
    bounded = v.bounded;
    positive = v.positive;
    dates_sorted = v.dates_sorted;
    parents_sorted = IsSorted-remove p b.parent_to_child v.parents_sorted;
  }

  evict_each-IsValid : (cs : List ℕ) (b : BlockBuffer M B T) → IsValid b → IsValid (evict_each cs b)
  unfolding evict_each
  evict_each-IsValid [] b v = v
  evict_each-IsValid (c ∷ cs) b v =
      evict_each-IsValid cs (evict_block c b).0 (evict_block-IsValid laws c b v)

  pub evict_loop-IsValid :
      (fuel : ℕ) (stack : List ℕ) (b : BlockBuffer M B T)
      → IsValid b
      → IsValid (evict_loop fuel stack b)
  unfolding evict_loop
  evict_loop-IsValid zero stack b v = v
  evict_loop-IsValid (suc fuel) [] b v = v
  evict_loop-IsValid (suc fuel) (p ∷ stack) b v = elim (Option-cases (lookup p b.parent_to_child)) [
    | inl missing ↦ rw (missing, evict_loop) (evict_loop-IsValid fuel stack b v)
    | inr (children, present) ↦
        rw (present, evict_loop)
          (evict_loop-IsValid fuel (extend children stack) _
            (evict_each-IsValid children (unlink p b) (unlink-IsValid p b v)))
  ]

  -- With an LruMap that keeps its documented laws, evicting the blocks up to a number with what
  -- descends from them keeps the invariant of the buffer.
  pub evict_old_blocks-IsValid :
      (n : ℕ) (b : BlockBuffer M B T) → IsValid b → IsValid (evict_old_blocks n b)
  unfolding evict_old_blocks evict_children
  evict_old_blocks-IsValid n b v =
      evict_loop-IsValid _ _ _
        (up_to_nil-IsValid _ (evict_each-IsValidUpTo _ _ (popped-IsValidUpTo n b v)))

  -- With an LruMap that keeps its documented laws, after evict_old_blocks no block up to the
  -- number is left in a valid buffer, and a block that is left was there before.
  pub evict_old_blocks_late :
      (n : ℕ) (b : BlockBuffer M B T) (h : ℕ) (x : Block B)
      → IsValid b
      → lookup h (evict_old_blocks n b).blocks ≡ some x
      → (n < x.number) × (lookup h b.blocks ≡ some x)
  unfolding evict_old_blocks evict_children
  evict_old_blocks_late n b h x v e =
      let popped = record b { earliest_blocks = (pop_until n b.earliest_blocks).1 } in
      let hashes = (pop_until n b.earliest_blocks).0 in
      let left : lookup h (evict_each hashes popped).blocks ≡ some x =
        evict_loop-lookup _ _ _ h x e in
      survives n b h x v (evict_each-lookup hashes h popped) left
