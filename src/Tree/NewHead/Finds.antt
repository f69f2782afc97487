-- ===== src/Tree/NewHead/Finds.antt =====
-- crates/engine/src/tree/mod.rs: `on_new_head` finds an update for every head that shares an ancestor with
-- the canonical one.
use zk_ress.Base.{
  ℕ, zero, suc, ◌+◌, ◌-◌, ◌≤◌, ◌≡◌, refl, subst, List, [], ◌∷◌, none, some, arith, ◌==◌, Bool-cases,
  inl, inr, length, ==_refl,
}
use zk_ress.Base.Maps.{lookup}
use zk_ress.Blocks.{Leads, here, up, IsAcyclic, Leads-le}
use zk_ress.ChainState
use zk_ress.Primitives.{NumHash, SealedHeader, Block}
use zk_ress.Provider
use zk_ress.Provider.{ZkRessProvider}
use zk_ress.Tree.NewHead.{NewCanonicalChain, commit, reorg, walk_back, meet, find_fork, on_new_head}

module _ {B P : Type 0} (p : ZkRessProvider B P) where
  abbrev Down : ℕ → ℕ → ℕ → Type 0
  Down steps hash ancestor = Leads p.chain_state.blocks_by_hash steps hash ancestor

  pub sealed_header_lem :
      (hash : ℕ) (b : Block B)
      → lookup hash p.chain_state.blocks_by_hash ≡ some b
      → Provider.sealed_header p hash ≡ some b.header
  unfolding Provider.sealed_header ChainState.sealed_header ChainState.map_recovered_block
  sealed_header_lem hash b e = rw (e) refl

  pub sealed_header-none :
      (hash : ℕ)
      → lookup hash p.chain_state.blocks_by_hash ≡ none
      → Provider.sealed_header p hash ≡ none
  unfolding Provider.sealed_header ChainState.sealed_header ChainState.map_recovered_block
  sealed_header-none hash e = rw (e) refl

  -- A walk of some of the steps to an ancestor gets so much closer to it.
  walk_back-Down :
      (rounds left : ℕ) {steps hash ancestor : ℕ} (chain : List SealedHeader)
      → steps ≡ rounds + left
      → Down steps hash ancestor
      → (reached : ℕ) × (longer : List SealedHeader) × (walk_back p rounds hash chain
          ≡ some (reached, longer))
        × Down left reached ancestor
  unfolding walk_back
  walk_back-Down zero left {hash = hash} {ancestor = ancestor} chain count down =
      (hash, chain, refl, subst (λ n. Down n hash ancestor) (omega arith) down)
  walk_back-Down (suc rounds) left chain count here = absurd (omega arith)
  walk_back-Down (suc rounds) left {hash = hash} chain count (up b stored down) =
      let (reached, longer, walked, rest) =
        walk_back-Down rounds left (b.header ∷ chain) (omega arith) down in
      (reached, longer, rw (walk_back, sealed_header_lem hash b stored) walked, rest)

  -- Two walks of the same length to one ancestor meet.
  meet-Down :
      (fuel steps old_hash current_hash ancestor : ℕ) (old_chain new_chain : List SealedHeader)
      → steps ≤ fuel
      → Down steps old_hash ancestor
      → Down steps current_hash ancestor
      → (found : List SealedHeader × List SealedHeader) × (meet p fuel old_hash current_hash
            old_chain new_chain
          ≡ some found)
  unfolding meet
  meet-Down zero zero old_hash current_hash ancestor old_chain new_chain enough here here =
      ((new_chain, old_chain), rw (meet, ==_refl old_hash) refl)
  meet-Down (suc fuel) zero old_hash current_hash ancestor old_chain new_chain enough here here =
      ((new_chain, old_chain), rw (meet, ==_refl old_hash) refl)
  meet-Down zero (suc steps) old_hash current_hash ancestor old_chain new_chain enough d e =
      absurd (omega arith)
  meet-Down (suc fuel) (suc steps) old_hash current_hash ancestor old_chain new_chain enough
        (up old s d) (up new t e) =
      elim (Bool-cases (old_hash == current_hash)) [
        | inl same ↦ ((new_chain, old_chain), rw (meet, same) refl)
        | inr other ↦
            let (found, met) =
              meet-Down fuel steps old.parent_hash new.parent_hash ancestor (old.header ∷ old_chain)
                (new.header ∷ new_chain) (omega arith) d e in
            (
              found,
              rw
                  (
                    meet,
                    other,
                    sealed_header_lem old_hash old s,
                    sealed_header_lem current_hash new t,
                  )
                  met,
            )
      ]

  -- On stored blocks whose parent links run in no circle, if the parent of a stored head and the
  -- canonical head have a common ancestor, in numbers of steps that agree with their block
  -- numbers, on_new_head finds an update.
  pub on_new_head-finds :
      (rank : ℕ → ℕ) (head : NumHash) (target fork steps old_steps : ℕ) (t : Block B)
      → IsAcyclic rank p.chain_state.blocks_by_hash
      → lookup target p.chain_state.blocks_by_hash ≡ some t
      → Down steps t.parent_hash fork
      → Down old_steps head.hash fork
      → steps + head.number ≡ old_steps + t.parent_number
      → (update : NewCanonicalChain) × (on_new_head p head target ≡ some update)
  unfolding on_new_head find_fork
  on_new_head-finds rank head target fork steps old_steps t acyclic stored new old level =
      let common = steps - (t.parent_number - head.number) in
      let (current_hash, new_chain, walked, new_rest) =
        walk_back-Down (t.parent_number - head.number) common (t.header ∷ []) (omega arith) new in
      let (old_hash, old_chain, old_walked, old_rest) =
        walk_back-Down (head.number - t.parent_number) common [] (omega arith) old in
      let (found, met) =
        meet-Down (length p.chain_state.blocks_by_hash) common old_hash current_hash fork old_chain
          new_chain (Leads-le rank common p.chain_state.blocks_by_hash acyclic old_rest) old_rest
          new_rest in
      elim (Bool-cases (current_hash == head.hash)) [
        | inl same ↦ (commit new_chain, rw (sealed_header_lem target t stored, walked, same) refl)
        | inr other ↦ (
          reorg found.0 found.1,
          rw (sealed_header_lem target t stored, walked, other, old_walked, met) refl,
        )
      ]
