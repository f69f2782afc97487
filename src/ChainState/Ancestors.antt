-- ===== src/ChainState/Ancestors.antt =====
-- crates/provider/src/chain_state.rs: what `block_hash` finds.
use zk_ress.Base.{
  ℕ, zero, suc, ◌≤◌, ◌≡◌, ◌≢◌, refl, subst, none, some, arith, ◌==◌, Bool-cases, Option-cases, inl,
  inr, length, ◌⊎◌, ◌↔◌,
}
use zk_ress.Base.Maps.{Map, lookup}
use zk_ress.Blocks.{Leads, here, up, IsAcyclic, Leads-ends}
use zk_ress.ChainState.{ChainStateInner, Walk, found, exhausted, walk, canonical_below, block_hash}
use zk_ress.Primitives.{NumHash, Block, parent_num_hash}

module _ {B : Type 0} (blocks : Map (Block B)) (number : ℕ) where
  -- A stored ancestor of `hash`, itself included, with the wanted number.
  pub record FoundAt (hash x : ℕ) : Type 0 where
    pub steps : ℕ
    pub at : ℕ
    pub block : Block B
    pub chain : Leads blocks steps hash at
    pub is_stored : lookup at blocks ≡ some block
    pub has_number : block.number ≡ number
    pub has_hash : block.hash ≡ x

  -- The walk has passed `steps` stored ancestors, none with the wanted number, to `last`.
  pub record EndsAt (parent last : NumHash) (steps : ℕ) : Type 0 where
    pub chain : Leads blocks steps parent.hash last.hash
    pub misses :
        (k h : ℕ) (b : Block B)
        → Leads blocks k parent.hash h
        → suc k ≤ steps
        → lookup h blocks ≡ some b
        → b.number ≢ number

  FoundAt-up :
      {h x : ℕ} (b : Block B) → lookup h blocks ≡ some b → FoundAt b.parent_hash x → FoundAt h x
  FoundAt-up b e f = record {
    steps = suc f.steps;
    at = f.at;
    block = f.block;
    chain = up b e f.chain;
    is_stored = f.is_stored;
    has_number = f.has_number;
    has_hash = f.has_hash;
  }

  walk-FoundAt :
      (fuel : ℕ) (parent : NumHash) (x : ℕ)
      → walk fuel blocks number parent ≡ found x
      → FoundAt parent.hash x
  unfolding walk
  walk-FoundAt zero parent x e = cc
  walk-FoundAt (suc fuel) parent x e = elim (Option-cases (lookup parent.hash blocks)) [
    | inl missing ↦ absurd (ground arith)
    | inr (b, stored) ↦ elim (Bool-cases (b.number == number)) [
      | inl hit ↦ record {
        steps = 0;
        at = parent.hash;
        block = b;
        chain = here;
        is_stored = stored;
        has_number = ground arith;
        has_hash = ground arith;
      }
      | inr miss ↦
          FoundAt-up b stored (walk-FoundAt fuel (parent_num_hash b.header) x (ground arith))
    ]
  ]

  EndsAt-up :
      {parent last : NumHash} {steps : ℕ} (b : Block B)
      → lookup parent.hash blocks ≡ some b
      → b.number ≢ number
      → EndsAt (parent_num_hash b.header) last steps
      → EndsAt parent last (suc steps)
  EndsAt-up {parent} {last} {steps} b stored miss rest = record {
    chain = up b stored rest.chain;
    misses = misses;
  }
    where
      misses :
          (k h : ℕ) (c : Block B)
          → Leads blocks k parent.hash h
          → suc k ≤ suc steps
          → lookup h blocks ≡ some c
          → c.number ≢ number
      misses zero h c here le e = ground arith
      misses (suc k) h c (up d f chain) le e = rest.misses k h c (ground arith) (omega arith) e

  EndsAt-here : (parent last : NumHash) → parent ≡ last → EndsAt parent last 0
  EndsAt-here parent last same =
      subst (λ l. EndsAt parent l 0) same
        (record { chain = here; misses = λ k h b chain le. absurd (omega arith) })

  -- The walk ends at an ancestor that is not stored, or when the fuel is used up.
  walk-EndsAt :
      (fuel : ℕ) (parent last : NumHash)
      → walk fuel blocks number parent ≡ exhausted last
      → (steps : ℕ) × EndsAt parent last steps × ((lookup last.hash blocks ≡ none) ⊎ (steps ≡ fuel))
  unfolding walk
  walk-EndsAt zero parent last e = (0, EndsAt-here parent last (cc), inr refl)
  walk-EndsAt (suc fuel) parent last e = elim (Option-cases (lookup parent.hash blocks)) [
    | inl missing ↦
        let same : parent ≡ last = ground arith in
        (
          0,
          EndsAt-here parent last same,
          inl (subst (λ l. lookup l.hash blocks ≡ none) same missing),
        )
    | inr (b, stored) ↦ elim (Bool-cases (b.number == number)) [
      | inl hit ↦ absurd (ground arith)
      | inr miss ↦
          let (steps, ends, why) =
            walk-EndsAt fuel (parent_num_hash b.header) last (ground arith) in
          (suc steps, EndsAt-up b stored (ground arith) ends, ground arith)
    ]
  ]

module _ {B P : Type 0} (s : ChainStateInner B P) where
  -- What is left to the canonical hashes: the number lies no higher than the ancestor, and the
  -- ancestor is canonical.
  abbrev pub CanonicalBelow : ℕ → NumHash → ℕ → Type 0
  CanonicalBelow number last x =
      (number ≤ last.number)
      × (lookup last.number s.canonical_hashes_by_number ≡ some last.hash)
      × (lookup number s.canonical_hashes_by_number ≡ some x)

  canonical_below_iff :
      (number : ℕ) (last : NumHash) (x : ℕ)
      → (canonical_below s number last ≡ some x) ↔ CanonicalBelow number last x
  unfolding canonical_below
  canonical_below_iff number last x =
      elim (Option-cases (lookup last.number s.canonical_hashes_by_number)) [
        | inl missing ↦ ground arith
        | inr (entry, present) ↦ ground arith
      ]

  -- On blocks whose parent links run in no circle, block_hash walks the stored ancestors first,
  -- before any canonical hash: it returns the hash of a stored ancestor with the number if there
  -- is one on the chain, and otherwise, from the first ancestor that is not stored, exactly the
  -- canonical hash of a number no higher than that ancestor, provided the ancestor is canonical;
  -- the fuel is enough.
  pub block_hash_lem :
      (rank : ℕ → ℕ) (parent : NumHash) (number : ℕ)
      → IsAcyclic rank s.blocks_by_hash
      → ((x : ℕ) × FoundAt s.blocks_by_hash number parent.hash x
          × (block_hash s parent number ≡ some x))
        ⊎ ((last : NumHash) × (steps : ℕ) × EndsAt s.blocks_by_hash number parent last steps
            × (lookup last.hash s.blocks_by_hash ≡ none)
            × ((x : ℕ) → (block_hash s parent number ≡ some x) ↔ CanonicalBelow number last x))
  unfolding block_hash
  block_hash_lem rank parent number acyclic =
      by_walk (walk (length s.blocks_by_hash) s.blocks_by_hash number parent) refl
    where
      gone :
          (last : NumHash) (steps : ℕ)
          → EndsAt s.blocks_by_hash number parent last steps
          → (lookup last.hash s.blocks_by_hash ≡ none) ⊎ (steps ≡ length s.blocks_by_hash)
          → lookup last.hash s.blocks_by_hash ≡ none
      gone last steps ends (inl e) = e
      gone last steps ends (inr all) =
          Leads-ends rank s.blocks_by_hash acyclic
            (subst (λ k. Leads s.blocks_by_hash k parent.hash last.hash) all ends.chain)

      by_walk :
          (w : Walk)
          → walk (length s.blocks_by_hash) s.blocks_by_hash number parent ≡ w
          → ((x : ℕ) × FoundAt s.blocks_by_hash number parent.hash x
              × (block_hash s parent number ≡ some x))
            ⊎ ((last : NumHash) × (steps : ℕ) × EndsAt s.blocks_by_hash number parent last steps
                × (lookup last.hash s.blocks_by_hash ≡ none)
                × ((x : ℕ) → (block_hash s parent number ≡ some x) ↔ CanonicalBelow number last x))
      by_walk (found x) e =
          inl (x, walk-FoundAt s.blocks_by_hash number _ parent x e, rw (e, block_hash))
      by_walk (exhausted last) e =
          let (steps, ends, why) = walk-EndsAt s.blocks_by_hash number _ parent last e in
          inr (
            last,
            steps,
            ends,
            gone last steps ends why,
            λ x. rw (e, block_hash) (canonical_below_iff number last x),
          )
