-- ===== src/Tree/NewHead/Fuel.antt =====
-- crates/engine/src/tree/mod.rs: the walks of `on_new_head` and `is_fork` along stored blocks end.
use zk_ress.Base.{
  ℕ, zero, suc, ◌+◌, ◌≡◌, ◌∙◌, List, ◌∷◌, some, arith, ◌==◌, leb, Bool-cases, Option-cases, inl,
  inr, length, subst, sym, ap,
}
use zk_ress.Base.Maps.{lookup}
use zk_ress.Blocks.{Leads, here, up, IsAcyclic, Leads-le}
use zk_ress.ChainState
use zk_ress.Primitives.{NumHash, SealedHeader, Block}
use zk_ress.Provider
use zk_ress.Provider.{ZkRessProvider}
use zk_ress.Tree.NewHead.{meet, fork_loop, is_fork}

module _ {B P : Type 0} (p : ZkRessProvider B P) where
  -- No chain of more than `rounds` stored blocks starts at the hash.
  Short : ℕ → ℕ → Type 0
  Short rounds hash = (to : ℕ) → Leads p.chain_state.blocks_by_hash (suc rounds) hash to → ⊥

  stored_block :
      (hash : ℕ) (h : SealedHeader)
      → Provider.sealed_header p hash ≡ some h
      → (b : Block B) × (lookup hash p.chain_state.blocks_by_hash ≡ some b) × (b.header ≡ h)
  unfolding Provider.sealed_header ChainState.sealed_header ChainState.map_recovered_block
  stored_block hash h e = elim (Option-cases (lookup hash p.chain_state.blocks_by_hash)) [
    | inl missing ↦ absurd (ground arith)
    | inr (b, present) ↦ (b, present, ground arith)
  ]

  Short-zero :
      (hash : ℕ) → Short zero hash → (h : SealedHeader) → Provider.sealed_header p hash ≡ some h → ⊥
  unfolding Short
  Short-zero hash short h e =
      let (b, present, same) = stored_block hash h e in short b.parent_hash (up b present here)

  Short-suc :
      (rounds hash : ℕ) (h : SealedHeader)
      → Short (suc rounds) hash
      → Provider.sealed_header p hash ≡ some h
      → Short rounds h.parent_hash
  unfolding Short
  Short-suc rounds hash h short e to chain =
      let (b, present, same) = stored_block hash h e in
      short to (
        up b present (
          subst (λ k. Leads p.chain_state.blocks_by_hash (suc rounds) k to)
            (sym (ap (λ g. g.parent_hash) same)) chain))

  meet_more :
      (rounds old_hash current_hash : ℕ) (old_chain new_chain : List SealedHeader)
      → Short rounds old_hash
      → meet p (suc rounds) old_hash current_hash old_chain new_chain
        ≡ meet p rounds old_hash current_hash old_chain new_chain
  unfolding meet
  meet_more zero old_hash current_hash old_chain new_chain short =
      elim (Option-cases (Provider.sealed_header p old_hash)) [
        | inl missing ↦ rw (missing)
        | inr (o, stored) ↦ absurd (Short-zero old_hash short o stored)
      ]
  meet_more (suc rounds) old_hash current_hash old_chain new_chain short =
      elim (Bool-cases (old_hash == current_hash)) [
        | inl same ↦ rw (same, meet)
        | inr other ↦ elim (Option-cases (Provider.sealed_header p old_hash)) [
          | inl missing ↦ rw (other, missing, meet)
          | inr (o, stored) ↦ elim (Option-cases (Provider.sealed_header p current_hash)) [
            | inl missing ↦ rw (other, stored, missing, meet)
            | inr (n, new_stored) ↦
                rw (other, stored, new_stored, meet)
                  (meet_more rounds o.parent_hash n.parent_hash (o ∷ old_chain) (n ∷ new_chain)
                    (Short-suc rounds old_hash o short stored))
          ]
        ]
      ]

  fork_more :
      (head : NumHash) (rounds hash : ℕ)
      → Short rounds hash
      → fork_loop p head (suc rounds) hash ≡ fork_loop p head rounds hash
  unfolding fork_loop
  fork_more head zero hash short = elim (Option-cases (Provider.sealed_header p hash)) [
    | inl missing ↦ rw (missing, fork_loop)
    | inr (o, stored) ↦ absurd (Short-zero hash short o stored)
  ]
  fork_more head (suc rounds) hash short = elim (Option-cases (Provider.sealed_header p hash)) [
    | inl missing ↦ rw (missing, fork_loop)
    | inr (o, stored) ↦ elim (Bool-cases (o.hash == head.hash)) [
      | inl same ↦ rw (stored, same, fork_loop)
      | inr other ↦ elim (Bool-cases (leb o.number head.number)) [
        | inl passed ↦ rw (stored, other, passed, fork_loop)
        | inr above ↦
            rw (stored, other, above, fork_loop)
              (fork_more head rounds o.parent_hash (Short-suc rounds hash o short stored))
      ]
    ]
  ]

  module _ (rank : ℕ → ℕ) (acyclic : IsAcyclic rank p.chain_state.blocks_by_hash) where
    acyclic-Short : (extra hash : ℕ) → Short (extra + length p.chain_state.blocks_by_hash) hash
    unfolding Short
    acyclic-Short extra hash to chain = absurd (
        omega (
          arith,
          Leads-le rank (suc (extra + length p.chain_state.blocks_by_hash))
              p.chain_state.blocks_by_hash acyclic chain,
        ))

    -- On stored blocks whose parent links run in no circle, the walk of on_new_head to the fork of
    -- two chains ends within its fuel, the number of stored blocks: more of it gives the same
    -- result.
    meet_ends :
        (extra old_hash current_hash : ℕ) (old_chain new_chain : List SealedHeader)
        → meet p
            (extra + length p.chain_state.blocks_by_hash)
            old_hash
            current_hash
            old_chain
            new_chain
          ≡ meet p (length p.chain_state.blocks_by_hash) old_hash current_hash old_chain new_chain
    meet_ends zero old_hash current_hash old_chain new_chain =
        let e : 0 + length p.chain_state.blocks_by_hash ≡ length p.chain_state.blocks_by_hash =
          omega arith in
        rw (e)
    meet_ends (suc extra) old_hash current_hash old_chain new_chain =
        let e : suc extra + length p.chain_state.blocks_by_hash
            ≡ suc (extra + length p.chain_state.blocks_by_hash) =
          omega arith in
        rw (e) (
          meet_more (extra + length p.chain_state.blocks_by_hash) old_hash current_hash old_chain
            new_chain (acyclic-Short extra old_hash)
          ∙ meet_ends extra old_hash current_hash old_chain new_chain)

    -- On stored blocks whose parent links run in no circle, the walk of is_fork ends within its
    -- fuel, the number of stored blocks: with more of it the result is that of is_fork.
    is_fork_ends :
        (extra : ℕ) (head : NumHash) (hash : ℕ)
        → fork_loop p head (extra + length p.chain_state.blocks_by_hash) hash ≡ is_fork p head hash
    unfolding is_fork
    is_fork_ends zero head hash =
        let e : 0 + length p.chain_state.blocks_by_hash ≡ length p.chain_state.blocks_by_hash =
          omega arith in
        rw (e)
    is_fork_ends (suc extra) head hash =
        let e : suc extra + length p.chain_state.blocks_by_hash
            ≡ suc (extra + length p.chain_state.blocks_by_hash) =
          omega arith in
        rw (e) (
          fork_more head (extra + length p.chain_state.blocks_by_hash) hash
            (acyclic-Short extra hash)
          ∙ is_fork_ends extra head hash)
