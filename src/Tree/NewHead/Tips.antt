-- ===== src/Tree/NewHead/Tips.antt =====
-- crates/engine/src/tree/mod.rs: the last header of what `on_new_head` finds.
use zk_ress.Base.{
  ℕ, zero, suc, ◌-◌, ◌≡◌, refl, List, [], ◌∷◌, Option, none, some, arith, ◌==◌, Bool-cases,
  Option-cases, inl, inr, last?, length, subst,
}
use zk_ress.Primitives.{NumHash, SealedHeader}
use zk_ress.Provider
use zk_ress.Provider.{ZkRessProvider}
use zk_ress.Tree.NewHead.{NewCanonicalChain, tip, walk_back, meet, find_fork, on_new_head}

last?-cons :
    (h : SealedHeader) (hs : List SealedHeader) (t : SealedHeader)
    → last? hs ≡ some t
    → last? (h ∷ hs) ≡ some t
last?-cons h [] t e = cc
last?-cons h (g ∷ hs) t e = e

module _ {B P : Type 0} (p : ZkRessProvider B P) where
  walk_back_last :
      (rounds hash : ℕ) (chain : List SealedHeader) (t : SealedHeader) (from : ℕ)
      (longer : List SealedHeader)
      → last? chain ≡ some t
      → walk_back p rounds hash chain ≡ some (from, longer)
      → last? longer ≡ some t
  unfolding walk_back
  walk_back_last zero hash chain t from longer l e = ground arith
  walk_back_last (suc rounds) hash chain t from longer l e =
      elim (Option-cases (Provider.sealed_header p hash)) [
        | inl missing ↦ absurd (ground arith)
        | inr (h, stored) ↦
            walk_back_last rounds h.parent_hash (h ∷ chain) t from longer (last?-cons h chain t l)
              (rw (stored, walk_back) at e)
      ]

  meet_last :
      (fuel old_hash current_hash : ℕ) (old_chain new_chain : List SealedHeader) (t : SealedHeader)
      (added removed : List SealedHeader)
      → last? new_chain ≡ some t
      → meet p fuel old_hash current_hash old_chain new_chain ≡ some (added, removed)
      → last? added ≡ some t
  unfolding meet
  meet_last zero old_hash current_hash old_chain new_chain t added removed l e = ground arith
  meet_last (suc fuel) old_hash current_hash old_chain new_chain t added removed l e =
      elim (Bool-cases (old_hash == current_hash)) [
        | inl same ↦ ground arith
        | inr other ↦ elim (Option-cases (Provider.sealed_header p old_hash)) [
          | inl missing ↦ absurd (ground arith)
          | inr (o, old_stored) ↦ elim (Option-cases (Provider.sealed_header p current_hash)) [
            | inl missing ↦ absurd (ground arith)
            | inr (n, new_stored) ↦
                meet_last fuel o.parent_hash n.parent_hash (o ∷ old_chain) (n ∷ new_chain) t added
                  removed (last?-cons n new_chain t l)
                  (rw (other, old_stored, new_stored, meet) at e)
          ]
        ]
      ]

  TipIf : SealedHeader → Option NewCanonicalChain → Type 0
  TipIf t none = Unit
  TipIf t (some update) = tip update ≡ some t

  on_new_head-TipIf :
      (head : NumHash) (target : ℕ) (t : SealedHeader)
      → Provider.sealed_header p target ≡ some t
      → TipIf t (on_new_head p head target)
  unfolding on_new_head find_fork TipIf tip
  on_new_head-TipIf head target t stored =
      let rounds = t.parent_number - head.number in
      elim (Option-cases (walk_back p rounds t.parent_hash (t ∷ []))) [
        | inl lost ↦ rw (stored, lost) tt
        | inr ((hash, new_chain), walked) ↦
            let l = walk_back_last rounds t.parent_hash (t ∷ []) t hash new_chain refl walked in
            elim (Bool-cases (hash == head.hash)) [
              | inl same ↦ rw (stored, walked, same) l
              | inr other ↦
                  elim (Option-cases (walk_back p (head.number - t.parent_number) head.hash [])) [
                    | inl lost ↦ rw (stored, walked, other, lost) tt
                    | inr ((old_hash, old_chain), walked') ↦
                        let fuel = length p.chain_state.blocks_by_hash in
                        elim (Option-cases (meet p fuel old_hash hash old_chain new_chain)) [
                          | inl lost ↦ rw (stored, walked, other, walked', lost) tt
                          | inr ((added, removed), met) ↦
                              rw (stored, walked, other, walked', met)
                                (meet_last fuel old_hash hash old_chain new_chain t added removed l
                                  met)
                        ]
                  ]
            ]
      ]

  -- The tip of the update is the header of the new head: no update is empty.
  pub on_new_head-tip :
      (head : NumHash) (target : ℕ) (update : NewCanonicalChain)
      → on_new_head p head target ≡ some update
      → (t : SealedHeader) × (Provider.sealed_header p target ≡ some t) × (tip update ≡ some t)
  unfolding TipIf
  on_new_head-tip head target update e = elim (Option-cases (Provider.sealed_header p target)) [
    | inl missing ↦ absurd (unknown missing)
    | inr (t, stored) ↦ (t, stored, subst (TipIf t) e (on_new_head-TipIf head target t stored))
  ]
    where
      unknown : Provider.sealed_header p target ≡ none → ⊥
      unknown missing = unfold on_new_head in ground (arith, e)
