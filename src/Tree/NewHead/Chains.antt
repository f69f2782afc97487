-- ===== src/Tree/NewHead/Chains.antt =====
-- crates/engine/src/tree/mod.rs: the chains that `on_new_head` finds.
use zk_ress.Base.{
  ℕ, zero, suc, ◌+◌, ◌-◌, ◌≡◌, refl, List, [], ◌∷◌, ◌++◌, Option, none, some, arith, ◌==◌,
  Bool-cases, Option-cases, inl, inr, length, ==_iff, ==_refl, subst,
}
use mathlib.Core.List.{append-nil}
use zk_ress.Primitives.{NumHash, SealedHeader}
use zk_ress.Provider
use zk_ress.Provider.{ZkRessProvider}
use zk_ress.Tree.NewHead.{NewCanonicalChain, commit, reorg, walk_back, meet, find_fork, on_new_head}

module _ {B P : Type 0} (p : ZkRessProvider B P) where
  -- The headers, oldest first, lead from a parent hash to the hash of the last of them, each stored
  -- under the hash that the next one names as its parent.
  abbrev pub Chain : ℕ → List SealedHeader → ℕ → Type 0
  Chain from [] to = from ≡ to
  Chain from (h ∷ hs) to =
      (hash : ℕ) × (Provider.sealed_header p hash ≡ some h)
      × (h.parent_hash ≡ from)
      × Chain hash hs to

  -- An extension of the canonical chain leads from the canonical head to the new one. In a reorg both
  -- chains lead from one fork block, to the new head and to the canonical one.
  abbrev pub Updates : NumHash → ℕ → NewCanonicalChain → Type 0
  Updates head target (commit added) = Chain head.hash added target
  Updates head target (reorg added removed) =
      (fork : ℕ) × Chain fork added target × Chain fork removed head.hash

  walk_back-Chain :
      (rounds hash to : ℕ) (chain : List SealedHeader) (from : ℕ) (longer : List SealedHeader)
      → Chain hash chain to
      → walk_back p rounds hash chain ≡ some (from, longer)
      → Chain from longer to
  unfolding walk_back
  walk_back-Chain zero hash to chain from longer c e =
      subst (λ (r : Option (ℕ × List SealedHeader)). ChainOf r) e c
    where
      ChainOf : Option (ℕ × List SealedHeader) → Type 0
      ChainOf none = ⊥
      ChainOf (some (f, l)) = Chain f l to
  walk_back-Chain (suc rounds) hash to chain from longer c e =
      elim (Option-cases (Provider.sealed_header p hash)) [
        | inl missing ↦ absurd (ground arith)
        | inr (h, stored) ↦
            walk_back-Chain rounds h.parent_hash to (h ∷ chain) from longer (hash, stored, refl, c)
              (rw (stored, walk_back) at e)
      ]

  -- What `meet` finds: a fork and the two chains from it.
  Forks : ℕ → ℕ → Option (List SealedHeader × List SealedHeader) → Type 0
  Forks new_to old_to none = Unit
  Forks new_to old_to (some (added, removed)) =
      (fork : ℕ) × Chain fork added new_to × Chain fork removed old_to

  meet-Forks :
      (fuel old_hash current_hash : ℕ) (old_chain new_chain : List SealedHeader) (old_to new_to : ℕ)
      → Chain old_hash old_chain old_to
      → Chain current_hash new_chain new_to
      → Forks new_to old_to (meet p fuel old_hash current_hash old_chain new_chain)
  unfolding meet Forks
  meet-Forks zero old_hash current_hash old_chain new_chain old_to new_to c d =
      elim (Bool-cases (old_hash == current_hash)) [
        | inl same ↦ rw same (
          current_hash,
          d,
          subst (λ h. Chain h old_chain old_to) ((==_iff old_hash current_hash).0 same) c,
        )
        | inr other ↦ rw other tt
      ]
  meet-Forks (suc fuel) old_hash current_hash old_chain new_chain old_to new_to c d =
      elim (Bool-cases (old_hash == current_hash)) [
        | inl same ↦ rw same (
          current_hash,
          d,
          subst (λ h. Chain h old_chain old_to) ((==_iff old_hash current_hash).0 same) c,
        )
        | inr other ↦ elim (Option-cases (Provider.sealed_header p old_hash)) [
          | inl missing ↦ rw (other, missing) tt
          | inr (o, old_stored) ↦ elim (Option-cases (Provider.sealed_header p current_hash)) [
            | inl missing ↦ rw (other, old_stored, missing) tt
            | inr (n, new_stored) ↦
                rw (other, old_stored, new_stored)
                  (meet-Forks fuel o.parent_hash n.parent_hash (o ∷ old_chain) (n ∷ new_chain)
                    old_to new_to (old_hash, old_stored, refl, c)
                    (current_hash, new_stored, refl, d))
          ]
        ]
      ]

  UpdatesIf : NumHash → ℕ → Option NewCanonicalChain → Type 0
  UpdatesIf head target none = Unit
  UpdatesIf head target (some update) = Updates head target update

  find_fork-Updates :
      (head : NumHash) (number hash target : ℕ) (new_chain : List SealedHeader)
      → Chain hash new_chain target
      → UpdatesIf head target (find_fork p head number hash new_chain)
  unfolding find_fork UpdatesIf Forks
  find_fork-Updates head number hash target new_chain c =
      elim (Option-cases (walk_back p (head.number - number) head.hash [])) [
        | inl lost ↦ rw lost tt
        | inr ((old_hash, old_chain), walked) ↦
            let d =
              walk_back-Chain (head.number - number) head.hash head.hash [] old_hash old_chain refl
                walked in
            let fuel = length p.chain_state.blocks_by_hash in
            elim (Option-cases (meet p fuel old_hash hash old_chain new_chain)) [
              | inl lost ↦ rw (walked, lost) tt
              | inr ((added, removed), met) ↦
                  rw (walked, met)
                    (subst (Forks target head.hash) met
                      (meet-Forks fuel old_hash hash old_chain new_chain head.hash target d c))
            ]
      ]

  on_new_head-Updates :
      (head : NumHash) (target : ℕ) → UpdatesIf head target (on_new_head p head target)
  unfolding on_new_head UpdatesIf
  on_new_head-Updates head target = elim (Option-cases (Provider.sealed_header p target)) [
    | inl missing ↦ rw missing tt
    | inr (t, stored) ↦
        let rounds = t.parent_number - head.number in
        elim (Option-cases (walk_back p rounds t.parent_hash (t ∷ []))) [
          | inl lost ↦ rw (stored, lost) tt
          | inr ((hash, new_chain), walked) ↦
              let c =
                walk_back-Chain rounds t.parent_hash target (t ∷ []) hash new_chain
                  (target, stored, refl, refl) walked in
              elim (Bool-cases (hash == head.hash)) [
                | inl same ↦
                    rw (stored, walked, same)
                      (subst (λ h. Chain h new_chain target) ((==_iff hash head.hash).0 same) c)
                | inr other ↦
                    rw (stored, walked, other)
                      (find_fork-Updates head t.parent_number hash target new_chain c)
              ]
        ]
  ]

  -- What on_new_head returns leads through stored headers from the canonical head to the new head,
  -- or, as a reorg, from one fork block both to the new head and to the canonical head.
  pub on_new_head_lem :
      (head : NumHash) (target : ℕ) (update : NewCanonicalChain)
      → on_new_head p head target ≡ some update
      → Updates head target update
  unfolding UpdatesIf
  on_new_head_lem head target update e =
      subst (UpdatesIf head target) e (on_new_head-Updates head target)

  walk_back_step :
      (rounds hash : ℕ) (h : SealedHeader) (chain : List SealedHeader)
      → Provider.sealed_header p hash ≡ some h
      → walk_back p (suc rounds) hash chain ≡ walk_back p rounds h.parent_hash (h ∷ chain)
  unfolding walk_back
  walk_back_step rounds hash h chain stored = rw (stored, walk_back)

  -- The chain behind a hash, walked back in full.
  walk_back_along :
      (from to : ℕ) (hs chain : List SealedHeader) (more : ℕ)
      → Chain from hs to
      → walk_back p (more + length hs) to chain ≡ walk_back p more from (hs ++ chain)
  walk_back_along from to [] chain more c = let e : more + 0 ≡ more = omega arith in rw (e, c)
  walk_back_along from to (h ∷ hs) chain more (hash, stored, parent, rest) =
      let e : more + suc (length hs) ≡ suc more + length hs = omega arith in
      rw (
        e,
        walk_back_along hash to hs chain (suc more) rest,
        walk_back_step more hash h (hs ++ chain) stored,
        parent,
      )

  extension_walk :
      (head : NumHash) (target : ℕ) (t : SealedHeader) (added : List SealedHeader)
      → Provider.sealed_header p target ≡ some t
      → Chain head.hash added target
      → length added ≡ suc (t.parent_number - head.number)
      → walk_back p (t.parent_number - head.number) t.parent_hash (t ∷ []) ≡ some (head.hash, added)
  unfolding walk_back
  extension_walk head target t added stored c count =
      let all : walk_back p (length added) target [] ≡ some (head.hash, added) =
        let e : 0 + length added ≡ length added = omega arith in
        rw (← e, walk_back_along head.hash target added [] 0 c, append-nil added) in
      rw (count, walk_back_step (t.parent_number - head.number) target t [] stored) at all

  -- If a chain of stored headers leads from the canonical head to the new head and is as long as
  -- the numbers say, on_new_head returns it as a commit.
  pub on_new_head_extends :
      (head : NumHash) (target : ℕ) (t : SealedHeader) (added : List SealedHeader)
      → Provider.sealed_header p target ≡ some t
      → Chain head.hash added target
      → length added ≡ suc (t.parent_number - head.number)
      → on_new_head p head target ≡ some (commit added)
  unfolding on_new_head
  on_new_head_extends head target t added stored c count =
      let walked : walk_back p (t.parent_number - head.number) t.parent_hash (t ∷ [])
          ≡ some (head.hash, added) =
        extension_walk head target t added stored c count in
      rw (stored, walked, ==_refl head.hash)
