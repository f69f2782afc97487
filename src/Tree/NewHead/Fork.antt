-- ===== src/Tree/NewHead/Fork.antt =====
-- crates/engine/src/tree/mod.rs: what `is_fork` decides.
use zk_ress.Base.{
  ℕ, zero, suc, ◌≤◌, ◌<◌, ◌≡◌, ◌↔◌, refl, sym, subst, ◌∙◌, leb→le, false, some, arith, ◌==◌, leb,
  Bool-cases, Option-cases, inl, inr, length, ==_iff, ==_refl,
}
use zk_ress.Base.Maps.{Map, lookup}
use zk_ress.Blocks.{Leads, here, up, IsAcyclic, Leads-le, Leads-snoc}
use zk_ress.ChainState.Invariant.{IsConsistent}
use zk_ress.Primitives.{NumHash, Block}
use zk_ress.Provider.{ZkRessProvider}
use zk_ress.Tree.NewHead.{fork_loop, is_fork}
use zk_ress.Tree.NewHead.Finds.{sealed_header_lem, sealed_header-none}

-- A stored block has a higher number than its stored parent.
abbrev pub IsRising : {B : Type 0} → Map (Block B) → Type 0
IsRising {B} m =
    (h : ℕ) (b parent : Block B)
    → lookup h m ≡ some b
    → lookup b.parent_hash m ≡ some parent
    → parent.number < b.number

-- Numbers fall along a chain of parents.
above :
    {B : Type 0} (m : Map (Block B)) (steps : ℕ) {hash to : ℕ} (b last : Block B)
    → IsRising m
    → lookup hash m ≡ some b
    → lookup to m ≡ some last
    → Leads m (suc steps) hash to
    → last.number < b.number
above m zero {hash = hash} b last rising e f (up c g here) =
    let same : c ≡ b = cc in rising hash b last e (rw (← same) f)
above m (suc steps) {hash = hash} b last rising e f (up c g (up d k further)) =
    let same : c ≡ b = cc in
    let below = above m steps d last rising k f (up d k further) in
    let lower : d.number < b.number = rising hash b d e (rw (← same) k) in
    omega (arith, below, lower)

module _ {B P : Type 0} (p : ZkRessProvider B P) (head : NumHash) (canonical : Block B)
    (consistent : IsConsistent p.chain_state)
    (is_stored : lookup head.hash p.chain_state.blocks_by_hash ≡ some canonical)
    (is_head : canonical.number ≡ head.number) where
  abbrev To : ℕ → ℕ → Type 0
  To steps hash = Leads p.chain_state.blocks_by_hash steps hash head.hash

  fork_loop-false :
      (fuel hash : ℕ) → fork_loop p head fuel hash ≡ false → (steps : ℕ) × To steps hash
  unfolding fork_loop
  fork_loop-false zero hash e = cc
  fork_loop-false (suc fuel) hash e =
      elim (Option-cases (lookup hash p.chain_state.blocks_by_hash)) [
        | inl missing ↦ absurd (cc (rw (fork_loop, sealed_header-none p hash missing) at e))
        | inr (b, stored) ↦ elim (Bool-cases (b.hash == head.hash)) [
          | inl same ↦
              let at_head : hash ≡ head.hash =
                sym (consistent.own hash b stored) ∙ (==_iff b.hash head.hash).0 same in
              (0, subst (To 0) (sym at_head) here)
          | inr other ↦ elim (Bool-cases (leb b.number head.number)) [
            | inl low ↦
                absurd (cc (rw (fork_loop, sealed_header_lem p hash b stored, other, low) at e))
            | inr high ↦
                let (steps, chain) =
                  fork_loop-false fuel b.parent_hash
                    (rw (fork_loop, sealed_header_lem p hash b stored, other, high) at e) in
                (suc steps, up b stored chain)
          ]
        ]
      ]

  To-fork_loop :
      (fuel steps hash : ℕ)
      → IsRising p.chain_state.blocks_by_hash
      → suc steps ≤ fuel
      → To steps hash
      → fork_loop p head fuel hash ≡ false
  unfolding fork_loop
  To-fork_loop zero steps hash rising enough chain = absurd (omega arith)
  To-fork_loop (suc fuel) zero hash rising enough here =
      rw
        (
          fork_loop,
          sealed_header_lem p hash canonical is_stored,
          consistent.own hash canonical is_stored,
          ==_refl hash,
        )
        refl
  To-fork_loop (suc fuel) (suc steps) hash rising enough (up b stored chain) =
      let higher =
        above p.chain_state.blocks_by_hash steps b canonical rising stored is_stored
          (up b stored chain) in
      elim (Bool-cases (b.hash == head.hash)) [
        | inl same ↦ rw (fork_loop, sealed_header_lem p hash b stored, same) refl
        | inr other ↦ elim (Bool-cases (leb b.number head.number)) [
          | inl low ↦ absurd (omega (arith, leb→le b.number head.number low))
          | inr high ↦
              rw (fork_loop, sealed_header_lem p hash b stored, other, high)
                (To-fork_loop fuel steps b.parent_hash rising (omega arith) chain)
        ]
      ]

  -- With the canonical head stored under its number, the invariant of the chain state, and stored
  -- blocks whose parent links run in no circle and that have a higher number than their stored
  -- parents, is_fork answers no just if parent links of stored blocks lead from the target to the
  -- canonical head; the fuel is enough.
  pub is_fork_lem :
      (rank : ℕ → ℕ) (target : ℕ)
      → IsAcyclic rank p.chain_state.blocks_by_hash
      → IsRising p.chain_state.blocks_by_hash
      → (is_fork p head target ≡ false) ↔ ((steps : ℕ) × To steps target)
  unfolding is_fork
  is_fork_lem rank target acyclic rising = (
    λ e. fork_loop-false (length p.chain_state.blocks_by_hash) target e,
    λ found.
        To-fork_loop (length p.chain_state.blocks_by_hash) found.0 target rising
          (Leads-le rank (suc found.0) p.chain_state.blocks_by_hash acyclic
            (Leads-snoc p.chain_state.blocks_by_hash canonical found.1 is_stored))
          found.1,
  )
