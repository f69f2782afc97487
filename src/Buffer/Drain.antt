-- ===== src/Buffer/Drain.antt =====
-- crates/engine/src/tree/block_buffer.rs: the loops over `parent_to_child`: they end within their fuel,
-- and taking out a block with its descendants keeps the invariant.
use zk_ress.Base.{
  ℕ, zero, suc, ◌+◌, ◌≤◌, ◌≡◌, refl, List, [], ◌∷◌, some, arith, Option-cases, inl, inr, length, ap,
}
use zk_ress.Base.Sets.{set_remove, length-set_remove-le}
use zk_ress.Base.Maps.{Map, lookup, insert, remove, IsSorted, lookup_below, IsSorted-remove}
use zk_ress.Buffer.{BlockBuffer, total, store_or_remove, remove_at, detach, remove_block}
use zk_ress.Buffer.Descendants.{
  extend, remove_each, unlink, remove_loop, work, remove_children, remove_block_with_children,
}
use zk_ress.Buffer.Evict.{unlink-IsValid}
use zk_ress.Buffer.Invariant.{IsValid, remove_at-IsSorted, remove_block-IsValid}
use zk_ress.Buffer.Lru.{LruMap, IsLru}

total-remove-le : (k : ℕ) (m : Map (List ℕ)) → total (remove k m) ≤ total m
unfolding total remove
total-remove-le k [] = omega arith
total-remove-le k ((j, hs) ∷ m) = ground (arith, total-remove-le k m)

pub total-remove :
    (k : ℕ) (hs : List ℕ) (m : Map (List ℕ))
    → lookup k m ≡ some hs
    → length hs + total (remove k m) ≤ total m
unfolding total remove lookup
total-remove k hs [] e = cc
total-remove k hs ((j, gs) ∷ m) e =
    ground (arith, total-remove k hs m, total-remove-le k m, λ (q : gs ≡ hs). ap length q)

total-insert :
    (k : ℕ) (new old : List ℕ) (m : Map (List ℕ))
    → IsSorted m
    → lookup k m ≡ some old
    → length old + total (insert k new m) ≡ length new + total m
unfolding total insert lookup
total-insert k new old [] v e = cc
total-insert k new old ((j, gs) ∷ m) v e =
    ground
      (arith, total-insert k new old m v.1, lookup_below j k m v.0, λ (q : gs ≡ old). ap length q)

pub extend-length : (cs stack : List ℕ) → length (extend cs stack) ≡ length cs + length stack
unfolding extend
extend-length [] stack = omega arith
extend-length (c ∷ cs) stack = omega (arith, extend-length cs (c ∷ stack))

total-store_or_remove-le :
    (k : ℕ) (hs old : List ℕ) (m : Map (List ℕ))
    → IsSorted m
    → lookup k m ≡ some old
    → length hs ≤ length old
    → total (store_or_remove k hs m) ≤ total m
unfolding store_or_remove
total-store_or_remove-le k [] old m v e le = total-remove-le k m
total-store_or_remove-le k (h ∷ hs) old m v e le = omega (arith, total-insert k (h ∷ hs) old m v e)

pub total-remove_at-le :
    (k h : ℕ) (m : Map (List ℕ)) → IsSorted m → total (remove_at k h m) ≤ total m
unfolding remove_at
total-remove_at-le k h m v = elim (Option-cases (lookup k m)) [
  | inl missing ↦ rw (missing, remove_at) (omega arith)
  | inr (old, present) ↦
      rw (present, remove_at)
        (total-store_or_remove-le k (set_remove h old) old m v present (length-set_remove-le h old))
]

module _ {M : LruMap} {B T : Type 0} where
  abbrev load : BlockBuffer M B T → ℕ
  load b = total b.parent_to_child

  remove_block-load :
      (c : ℕ) (b : BlockBuffer M B T)
      → IsSorted b.parent_to_child
      → (load (remove_block c b).0 ≤ load b) × IsSorted (remove_block c b).0.parent_to_child
  unfolding remove_block detach
  remove_block-load c b v = elim (Option-cases (lookup c b.blocks)) [
    | inl missing ↦ rw (missing, remove_block) (omega arith, v)
    | inr (x, present) ↦ elim (Option-cases (lookup c b.proofs)) [
      | inl unproved ↦ rw (present, unproved, remove_block) (omega arith, v)
      | inr (p, proved) ↦
          rw (present, proved, remove_block)
            (
              total-remove_at-le x.parent_hash c b.parent_to_child v,
              remove_at-IsSorted x.parent_hash c b.parent_to_child v,
            )
    ]
  ]

  remove_each-load :
      (cs : List ℕ) (b : BlockBuffer M B T)
      → IsSorted b.parent_to_child
      → (load (remove_each cs b).0 ≤ load b) × IsSorted (remove_each cs b).0.parent_to_child
  unfolding remove_each
  remove_each-load [] b v = (omega arith, v)
  remove_each-load (c ∷ cs) b v =
      let (le, sorted) = remove_block-load c b v in
      let (le', sorted') = remove_each-load cs (remove_block c b).0 sorted in
      (omega (arith, le, le'), sorted')

  -- A round takes a hash off the stack, and puts there what it takes out of the map.
  round-load :
      (p : ℕ) (children : List ℕ) (b : BlockBuffer M B T)
      → IsSorted b.parent_to_child
      → lookup p b.parent_to_child ≡ some children
      → (length children + load (remove_each children (unlink p b)).0 ≤ load b)
        × IsSorted (remove_each children (unlink p b)).0.parent_to_child
  round-load p children b v e =
      let (le, sorted) =
        remove_each-load children (unlink p b) (IsSorted-remove p b.parent_to_child v) in
      (omega (arith, le, total-remove p children b.parent_to_child e), sorted)

  -- Any two amounts of fuel that cover the work give the same result.
  remove_loop_fuel :
      (f g : ℕ) (stack : List ℕ) (b : BlockBuffer M B T)
      → IsSorted b.parent_to_child
      → length stack + load b ≤ f
      → length stack + load b ≤ g
      → remove_loop f stack b ≡ remove_loop g stack b
  unfolding remove_loop
  remove_loop_fuel zero zero stack b v hf hg = refl
  remove_loop_fuel zero (suc g) [] b v hf hg = refl
  remove_loop_fuel (suc f) zero [] b v hf hg = refl
  remove_loop_fuel (suc f) (suc g) [] b v hf hg = refl
  remove_loop_fuel zero (suc g) (p ∷ stack) b v hf hg = absurd (omega arith)
  remove_loop_fuel (suc f) zero (p ∷ stack) b v hf hg = absurd (omega arith)
  remove_loop_fuel (suc f) (suc g) (p ∷ stack) b v hf hg =
      elim (Option-cases (lookup p b.parent_to_child)) [
        | inl missing ↦
            rw (missing, remove_loop) (remove_loop_fuel f g stack b v (omega arith) (omega arith))
        | inr (children, present) ↦
            let (le, sorted) = round-load p children b v present in
            let size = extend-length children stack in
            rw (
              present,
              remove_loop,
              remove_loop_fuel f g (extend children stack) (remove_each children (unlink p b)).0
                  sorted (omega (arith, le, size)) (omega (arith, le, size)),
            )
      ]

  -- The loop of remove_children ends within its fuel: with any fuel of at least the number of
  -- waiting hashes and listed children the result is the same.
  pub remove_children_ends :
      (fuel : ℕ) (stack : List ℕ) (b : BlockBuffer M B T)
      → IsSorted b.parent_to_child
      → work stack b ≤ fuel
      → remove_loop fuel stack b ≡ remove_children stack b
  unfolding work remove_children
  remove_children_ends fuel stack b v enough =
      remove_loop_fuel fuel _ stack b v enough (omega arith)

module _ {M : LruMap} {B T : Type 0} (laws : IsLru M) where
  remove_each-IsValid :
      (cs : List ℕ) (b : BlockBuffer M B T) → IsValid b → IsValid (remove_each cs b).0
  unfolding remove_each
  remove_each-IsValid [] b v = v
  remove_each-IsValid (c ∷ cs) b v =
      remove_each-IsValid cs (remove_block c b).0 (remove_block-IsValid laws c b v)

  remove_loop-IsValid :
      (fuel : ℕ) (stack : List ℕ) (b : BlockBuffer M B T)
      → IsValid b
      → IsValid (remove_loop fuel stack b).0
  unfolding remove_loop
  remove_loop-IsValid zero stack b v = v
  remove_loop-IsValid (suc fuel) [] b v = v
  remove_loop-IsValid (suc fuel) (p ∷ stack) b v =
      elim (Option-cases (lookup p b.parent_to_child)) [
        | inl missing ↦ rw (missing, remove_loop) (remove_loop-IsValid fuel stack b v)
        | inr (children, present) ↦
            rw (present, remove_loop)
              (remove_loop-IsValid fuel (extend children stack) _
                (remove_each-IsValid children (unlink p b) (unlink-IsValid laws p b v)))
      ]

  -- With an LruMap that keeps its documented laws, taking out a block and what descends from it
  -- keeps the invariant of the buffer.
  pub remove_block_with_children-IsValid :
      (hash : ℕ) (b : BlockBuffer M B T) → IsValid b → IsValid (remove_block_with_children hash b).0
  unfolding remove_block_with_children remove_children
  remove_block_with_children-IsValid hash b v =
      remove_loop-IsValid _ _ _ (remove_block-IsValid laws hash b v)
