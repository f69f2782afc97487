-- ===== src/Buffer/Orphans.antt =====
-- crates/engine/src/tree/block_buffer.rs: `remove_block_with_children` and blocks without a proof.
use zk_ress.Base.{
  ℕ, zero, suc, ◌≡◌, ◌∙◌, subst, false, List, [], ◌∷◌, none, some, arith, ◌==◌, Option-cases, inl,
  inr,
}
use zk_ress.Base.Sets.{mem, set_remove}
use zk_ress.Base.Maps.{Map, lookup, at, lookup-remove, lookup-insert}
use zk_ress.Buffer.{BlockBuffer, store_or_remove, remove_at, detach, remove_block, total}
use zk_ress.Buffer.Descendants.{
  remove_each, unlink, remove_loop, remove_children, work, remove_block_with_children,
}
use zk_ress.Buffer.Lru.{LruMap}
use zk_ress.Primitives.{Block}

store_or_remove-lookup :
    (k j : ℕ) (hs : List ℕ) (m : Map (List ℕ))
    → (k == j) ≡ false
    → lookup j (store_or_remove k hs m) ≡ lookup j m
unfolding store_or_remove
store_or_remove-lookup k j [] m ne = ground (arith, lookup-remove k j m)
store_or_remove-lookup k j (h ∷ hs) m ne = ground (arith, lookup-insert k j (h ∷ hs) m)

-- No key comes back.
remove_at_missing :
    (k h p : ℕ) (m : Map (List ℕ)) → lookup p m ≡ none → lookup p (remove_at k h m) ≡ none
unfolding remove_at
remove_at_missing k h p m e = elim (Option-cases (lookup k m)) [
  | inl missing ↦ rw (missing, remove_at) e
  | inr (old, present) ↦
      rw (present, remove_at) (store_or_remove-lookup k p (set_remove h old) m (ground arith) ∙ e)
]

module _ {M : LruMap} {B T : Type 0} where
  -- A block stored without a proof, and a parent without an entry: both stay so.
  record Waits (c : ℕ) (x : Block B) (b : BlockBuffer M B T) : Type 0 where
    stored : lookup c b.blocks ≡ some x
    unproved : lookup c b.proofs ≡ none

  remove_block-Waits :
      (c h : ℕ) (x : Block B) (b : BlockBuffer M B T) → Waits c x b → Waits c x (remove_block h b).0
  unfolding remove_block detach
  remove_block-Waits c h x b w =
      ground (arith, w.stored, w.unproved, lookup-remove h c b.blocks, lookup-remove h c b.proofs)

  remove_block_missing :
      (p h : ℕ) (b : BlockBuffer M B T)
      → lookup p b.parent_to_child ≡ none
      → lookup p (remove_block h b).0.parent_to_child ≡ none
  unfolding remove_block detach
  remove_block_missing p h b e = elim (Option-cases (lookup h b.blocks)) [
    | inl missing ↦ rw (missing, remove_block) e
    | inr (y, present) ↦ ground (arith, remove_at_missing y.parent_hash h p b.parent_to_child e)
  ]

  remove_each-Waits :
      (c : ℕ) (x : Block B) (cs : List ℕ) (b : BlockBuffer M B T)
      → Waits c x b
      → Waits c x (remove_each cs b).0
  unfolding remove_each
  remove_each-Waits c x [] b w = w
  remove_each-Waits c x (d ∷ cs) b w =
      remove_each-Waits c x cs (remove_block d b).0 (remove_block-Waits c d x b w)

  remove_each_missing :
      (p : ℕ) (cs : List ℕ) (b : BlockBuffer M B T)
      → lookup p b.parent_to_child ≡ none
      → lookup p (remove_each cs b).0.parent_to_child ≡ none
  unfolding remove_each
  remove_each_missing p [] b e = e
  remove_each_missing p (d ∷ cs) b e =
      remove_each_missing p cs (remove_block d b).0 (remove_block_missing p d b e)

  unlink_missing :
      (p q : ℕ) (b : BlockBuffer M B T)
      → lookup p b.parent_to_child ≡ none
      → lookup p (unlink q b).parent_to_child ≡ none
  unlink_missing p q b e = ground (arith, lookup-remove q p b.parent_to_child)

  remove_loop-Waits :
      (c : ℕ) (x : Block B) (fuel : ℕ) (stack : List ℕ) (b : BlockBuffer M B T)
      → Waits c x b
      → Waits c x (remove_loop fuel stack b).0
  unfolding remove_loop
  remove_loop-Waits c x zero stack b w = w
  remove_loop-Waits c x (suc fuel) [] b w = w
  remove_loop-Waits c x (suc fuel) (p ∷ stack) b w =
      elim (Option-cases (lookup p b.parent_to_child)) [
        | inl missing ↦ rw (missing, remove_loop) (remove_loop-Waits c x fuel stack b w)
        | inr (children, present) ↦
            rw (present, remove_loop)
              (remove_loop-Waits c x fuel _ _ (
                remove_each-Waits c x children (unlink p b)
                  (record { stored = w.stored; unproved = w.unproved })))
      ]

  remove_loop_missing :
      (p fuel : ℕ) (stack : List ℕ) (b : BlockBuffer M B T)
      → lookup p b.parent_to_child ≡ none
      → lookup p (remove_loop fuel stack b).0.parent_to_child ≡ none
  unfolding remove_loop
  remove_loop_missing p zero stack b e = e
  remove_loop_missing p (suc fuel) [] b e = e
  remove_loop_missing p (suc fuel) (q ∷ stack) b e =
      elim (Option-cases (lookup q b.parent_to_child)) [
        | inl missing ↦ rw (missing, remove_loop) (remove_loop_missing p fuel stack b e)
        | inr (children, present) ↦
            rw (present, remove_loop)
              (remove_loop_missing p fuel _ _
                (remove_each_missing p children (unlink q b) (unlink_missing p q b e)))
      ]

  -- The loop takes the entry of the first hash on its stack.
  first_missing :
      (p fuel : ℕ) (b : BlockBuffer M B T)
      → lookup p (remove_loop (suc fuel) (p ∷ []) b).0.parent_to_child ≡ none
  unfolding remove_loop
  first_missing p fuel b = elim (Option-cases (lookup p b.parent_to_child)) [
    | inl missing ↦ rw (missing, remove_loop) (remove_loop_missing p fuel [] b missing)
    | inr (children, present) ↦
        rw (present, remove_loop)
          (remove_loop_missing p fuel _ _ (
            remove_each_missing p children (unlink p b)
              (ground (arith, lookup-remove p p b.parent_to_child))))
  ]

  remove_children_missing :
      (p : ℕ) (b : BlockBuffer M B T)
      → lookup p (remove_children (p ∷ []) b).0.parent_to_child ≡ none
  unfolding remove_children work
  remove_children_missing p b =
      let e : suc (total b.parent_to_child) ≡ work (p ∷ []) b = omega arith in
      subst (λ f. lookup p (remove_loop f (p ∷ []) b).0.parent_to_child ≡ none) e
        (first_missing p (total b.parent_to_child) b)

  -- A stored child of the hash that has no proof stays in the buffer when
  -- remove_block_with_children takes the descendants of the hash out, and it is no longer listed
  -- under its parent.
  pub remove_block_with_children_orphans :
      (hash child : ℕ) (x : Block B) (b : BlockBuffer M B T)
      → lookup child b.blocks ≡ some x
      → lookup child b.proofs ≡ none
      → x.parent_hash ≡ hash
      → (lookup child (remove_block_with_children hash b).0.blocks ≡ some x)
        × (mem child (at x.parent_hash (remove_block_with_children hash b).0.parent_to_child)
            ≡ false)
  unfolding remove_block_with_children remove_children mem
  remove_block_with_children_orphans hash child x b stored unproved parent =
      let removed = (remove_block hash b).0 in
      let waits =
        remove_loop-Waits child x _ (hash ∷ []) removed
          (remove_block-Waits child hash x b (record { stored = stored; unproved = unproved })) in
      (waits.stored, rw (parent, remove_children_missing hash removed))
