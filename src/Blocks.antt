-- ===== src/Blocks.antt =====
-- Maps of blocks by hash, as the chain state and the buffer keep them: chains of parent hashes through
-- stored blocks. A hash is a digest of what holds the parent's hash, so no chain runs in a circle;
-- that is a hypothesis, a rank that falls from a stored block to its parent.
use zk_ress.Base.{
  ℕ, zero, suc, ◌≤◌, ◌<◌, ◌≡◌, some, none, arith, length, ◌∷◌, [], Option-cases, inl, inr,
}
use zk_ress.Base.Maps.{Map, lookup, remove, lookup-remove}
use zk_ress.Primitives.{Block}

-- From `h`, `k` steps to a stored block's parent lead to `h'`.
pub data Leads {B : Type 0} (m : Map (Block B)) : ℕ → ℕ → ℕ → Type 0 where
  here : {h : ℕ} → Leads m zero h h
  up :
      {k h h' : ℕ} (b : Block B)
      → lookup h m ≡ some b
      → Leads m k b.parent_hash h'
      → Leads m (suc k) h h'

abbrev pub IsAcyclic : {B : Type 0} → (ℕ → ℕ) → Map (Block B) → Type 0
IsAcyclic {B} rank m = (h : ℕ) (b : Block B) → lookup h m ≡ some b → rank b.parent_hash < rank h

module _ {B : Type 0} where
  length-remove-le : (h : ℕ) (m : Map (Block B)) → length (remove h m) ≤ length m
  unfolding remove
  length-remove-le h [] = omega arith
  length-remove-le h ((j, c) ∷ m) = ground (arith, length-remove-le h m)

  pub length-remove-lt :
      (h : ℕ) (b : Block B) (m : Map (Block B))
      → lookup h m ≡ some b
      → suc (length (remove h m)) ≤ length m
  unfolding lookup remove
  length-remove-lt h b [] e = cc
  length-remove-lt h b ((j, c) ∷ m) e = ground (arith, length-remove-le h m, length-remove-lt h b m)

  module _ (rank : ℕ → ℕ) where
    -- A chain that starts below a hash does not pass through it.
    Leads-remove :
        (x : ℕ) (m : Map (Block B)) {k h h' : ℕ}
        → IsAcyclic rank m
        → rank h < rank x
        → Leads m k h h'
        → Leads (remove x m) k h h'
    Leads-remove x m acyclic below here = here
    Leads-remove x m {h = h} acyclic below (up b e rest) =
        up b (ground (arith, lookup-remove x h m))
          (Leads-remove x m acyclic (omega (arith, acyclic h b e)) rest)

    IsAcyclic-remove : (x : ℕ) (m : Map (Block B)) → IsAcyclic rank m → IsAcyclic rank (remove x m)
    IsAcyclic-remove x m acyclic h b e = acyclic h b (ground (arith, lookup-remove x h m))

    -- A chain is no longer than the map.
    pub Leads-le :
        (k : ℕ) {h h' : ℕ} (m : Map (Block B)) → IsAcyclic rank m → Leads m k h h' → k ≤ length m
    Leads-le zero m acyclic chain = omega arith
    Leads-le (suc k) {h = h} m acyclic (up b e rest) = omega (
      arith,
      length-remove-lt h b m e,
      Leads-le k (remove h m) (IsAcyclic-remove h m acyclic)
          (Leads-remove h m acyclic (acyclic h b e) rest),
    )

  pub Leads-snoc :
      (m : Map (Block B)) (b : Block B) {k h h' : ℕ}
      → Leads m k h h'
      → lookup h' m ≡ some b
      → Leads m (suc k) h b.parent_hash
  Leads-snoc m b here e = up b e here
  Leads-snoc m b (up c f rest) e = up c f (Leads-snoc m b rest e)

  -- At the end of a chain as long as the map there is no stored block.
  pub Leads-ends :
      {h h' : ℕ} (rank : ℕ → ℕ) (m : Map (Block B))
      → IsAcyclic rank m
      → Leads m (length m) h h'
      → lookup h' m ≡ none
  Leads-ends {h' = h'} rank m acyclic chain = elim (Option-cases (lookup h' m)) [
    | inl e ↦ e
    | inr (b, e) ↦
        absurd (omega (arith, Leads-le rank (suc (length m)) m acyclic (Leads-snoc m b chain e)))
  ]
