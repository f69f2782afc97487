-- ===== src/Examples/Buffers.antt =====
-- Runs on a buffer of at most three blocks that holds two, of which the first has a proof.
use zk_ress.Base.{ℕ, ◌≡◌, ◌<◌, ◌≤◌, ◌⊎◌, ◌↔◌, refl, false, [], ◌∷◌, none, some, arith, All}
use zk_ress.Base.Sets.{mem}
use zk_ress.Base.Maps.{lookup, at}
use zk_ress.Blocks.{Leads, IsAcyclic}
use zk_ress.Buffer.{BlockBuffer, lowest_ancestor, insert_block, insert_proof}
use zk_ress.Buffer.Connects.{Has, insert_block-connects}
use zk_ress.Buffer.Ancestor.{lowest_ancestor_lem}
use zk_ress.Buffer.Descendants.{
  remove_loop, remove_children, remove_block_with_children, evict_old_blocks, work,
}
use zk_ress.Buffer.Drain.{remove_children_ends}
use zk_ress.Buffer.Links.{Evicted}
use zk_ress.Buffer.Evicted.{evict_old_blocks_exact}
use zk_ress.Buffer.Invariant.{IsValid}
use zk_ress.Buffer.Orphans.{remove_block_with_children_orphans}
use zk_ress.Buffer.Taken.{Shrinks, Taken, remove_block_with_children-Taken}
use zk_ress.Examples.Lru.{State, list_lru, list_lru-IsLru}
use zk_ress.Examples.Samples.{second_block, third_block}
use zk_ress.Primitives.{Block}

abbrev three_at_most : State
unfolding mem
three_at_most = record { limit = 3; keys = 12 ∷ 13 ∷ []; distinct = (refl, (refl, tt)) }

abbrev two_waiting : BlockBuffer list_lru Unit ℕ
two_waiting = record {
  blocks = (12, second_block) ∷ (13, third_block) ∷ [];
  proofs = (12, 7) ∷ [];
  parent_to_child = (11, 12 ∷ []) ∷ (12, 13 ∷ []) ∷ [];
  earliest_blocks = (2, 12 ∷ []) ∷ (3, 13 ∷ []) ∷ [];
  lru = three_at_most;
}

two_waiting-IsValid : IsValid two_waiting
unfolding lookup mem
two_waiting-IsValid = record {
  own = λ h x e. ground arith;
  tracked = λ h. ground arith;
  dated = λ h x e. ground arith;
  bounded = omega arith;
  positive = omega arith;
  dates_sorted = ground arith;
  parents_sorted = ground arith;
}

-- The second block is evicted, and the third as its child.
evict_old_blocks_exact_example :
    (lookup 13 (evict_old_blocks 2 two_waiting).blocks ≡ some third_block)
    ↔ ((lookup 13 two_waiting.blocks ≡ some third_block) × (2 < 3) × ¬ Evicted 2 two_waiting 13)
evict_old_blocks_exact_example =
    evict_old_blocks_exact list_lru-IsLru 2 two_waiting 13 third_block two_waiting-IsValid

remove_children_ends_example :
    remove_loop 9 (11 ∷ []) two_waiting ≡ remove_children (11 ∷ []) two_waiting
remove_children_ends_example =
    remove_children_ends 9 (11 ∷ []) two_waiting two_waiting-IsValid.parents_sorted enough
  where
    enough : work (11 ∷ []) two_waiting ≤ 9
    enough = unfold work in omega arith

-- The third block is inserted again, with a proof.
insert_block-connects_example :
    Has
      (third_block, 8)
      (remove_block_with_children 12 (insert_proof 13 8 (insert_block third_block two_waiting))).1
insert_block-connects_example =
    insert_block-connects list_lru-IsLru third_block 8 two_waiting two_waiting-IsValid refl

remove_block_with_children-Taken_example :
    Shrinks two_waiting (remove_block_with_children 11 two_waiting).0
    × All
        (Taken two_waiting (remove_block_with_children 11 two_waiting).0)
        (remove_block_with_children 11 two_waiting).1
remove_block_with_children-Taken_example = remove_block_with_children-Taken 11 two_waiting

remove_block_with_children_orphans_example :
    (lookup 13 (remove_block_with_children 12 two_waiting).0.blocks ≡ some third_block)
    × (mem 13 (at 12 (remove_block_with_children 12 two_waiting).0.parent_to_child) ≡ false)
remove_block_with_children_orphans_example =
    remove_block_with_children_orphans 12 13 third_block two_waiting third_stored third_unproved
      refl
  where
    third_stored : lookup 13 two_waiting.blocks ≡ some third_block
    third_stored = unfold lookup in refl

    third_unproved : lookup 13 two_waiting.proofs ≡ none
    third_unproved = unfold lookup in refl

two_waiting-IsAcyclic : IsAcyclic (λ h. h) two_waiting.blocks
unfolding lookup
two_waiting-IsAcyclic h b e = ground arith

lowest_ancestor_lem_example :
    ((lookup 13 two_waiting.blocks ≡ none) × (lowest_ancestor two_waiting 13 ≡ none))
    ⊎ ((lowest : Block Unit) × (steps h : ℕ) × (lowest_ancestor two_waiting 13 ≡ some lowest)
        × Leads two_waiting.blocks steps 13 h
        × (lookup h two_waiting.blocks ≡ some lowest)
        × (lookup lowest.parent_hash two_waiting.blocks ≡ none))
lowest_ancestor_lem_example = lowest_ancestor_lem two_waiting (λ h. h) 13 two_waiting-IsAcyclic
