-- ===== src/Buffer/Ancestor.antt =====
-- crates/engine/src/tree/block_buffer.rs: `lowest_ancestor`.
use zk_ress.Base.{
  ℕ, zero, suc, ◌≡◌, ◌⊎◌, refl, subst, none, some, arith, length, Option-cases, inl, inr,
}
use zk_ress.Base.Maps.{Map, lookup}
use zk_ress.Blocks.{Leads, here, up, IsAcyclic, Leads-ends}
use zk_ress.Buffer.{BlockBuffer, climb, lowest_ancestor}
use zk_ress.Buffer.Lru.{LruMap}
use zk_ress.Primitives.{Block}

module _ {B : Type 0} (m : Map (Block B)) where
  -- Where the loop stops: at a stored block to which parent links lead, whose own parent is not stored,
  -- or where the fuel is used up.
  climb_lem :
      (fuel h : ℕ) (current : Block B)
      → lookup h m ≡ some current
      → (steps h' : ℕ) × Leads m steps h h'
        × (lookup h' m ≡ some (climb fuel m current))
        × ((lookup (climb fuel m current).parent_hash m ≡ none) ⊎ (steps ≡ fuel))
  unfolding climb
  climb_lem zero h current stored = (0, h, here, stored, inr refl)
  climb_lem (suc fuel) h current stored = elim (Option-cases (lookup current.parent_hash m)) [
    | inl missing ↦ rw (missing, climb) (0, h, here, stored, inl missing)
    | inr (parent, has_parent) ↦
        let (steps, h', chain, found, why) = climb_lem fuel current.parent_hash parent has_parent in
        rw (has_parent, climb) (suc steps, h', up current stored chain, found, ground (arith, why))
  ]

module _ {M : LruMap} {B T : Type 0} (b : BlockBuffer M B T) where
  -- On buffered blocks whose parent links run in no circle, the lowest ancestor of a buffered hash
  -- is a buffered block: parent links through buffered blocks lead from the hash to the hash that
  -- it is stored under, and its own parent is not buffered; a hash that is not buffered has none;
  -- the fuel is enough.
  pub lowest_ancestor_lem :
      (rank : ℕ → ℕ) (hash : ℕ)
      → IsAcyclic rank b.blocks
      → ((lookup hash b.blocks ≡ none) × (lowest_ancestor b hash ≡ none))
        ⊎ ((lowest : Block B) × (steps h : ℕ) × (lowest_ancestor b hash ≡ some lowest)
            × Leads b.blocks steps hash h
            × (lookup h b.blocks ≡ some lowest)
            × (lookup lowest.parent_hash b.blocks ≡ none))
  unfolding lowest_ancestor
  lowest_ancestor_lem rank hash acyclic = elim (Option-cases (lookup hash b.blocks)) [
    | inl missing ↦ inl (missing, rw (missing, lowest_ancestor))
    | inr (start, stored) ↦
        let (steps, h, chain, found, why) =
          climb_lem b.blocks (length b.blocks) hash start stored in
        inr (
          climb (length b.blocks) b.blocks start,
          steps,
          h,
          rw (stored, lowest_ancestor),
          chain,
          found,
          ends (climb (length b.blocks) b.blocks start) steps h chain found why,
        )
  ]
    where
      ends :
          (lowest : Block B) (steps h : ℕ)
          → Leads b.blocks steps hash h
          → lookup h b.blocks ≡ some lowest
          → (lookup lowest.parent_hash b.blocks ≡ none) ⊎ (steps ≡ length b.blocks)
          → lookup lowest.parent_hash b.blocks ≡ none
      ends lowest steps h chain found (inl e) = e
      ends lowest steps h chain found (inr all) =
          let gone =
            Leads-ends rank b.blocks acyclic (subst (λ k. Leads b.blocks k hash h) all chain) in
          absurd (cc)
