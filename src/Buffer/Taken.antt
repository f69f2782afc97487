-- ===== src/Buffer/Taken.antt =====
-- crates/engine/src/tree/block_buffer.rs: what `remove_block_with_children` hands out.
use zk_ress.Base.{
  ℕ, zero, suc, ◌≡◌, List, [], ◌∷◌, ◌++◌, none, some, arith, Option-cases, inl, inr, All,
  All-append,
}
use zk_ress.Base.Maps.{lookup, lookup-remove}
use zk_ress.Buffer.{BlockBuffer, detach, remove_block}
use zk_ress.Buffer.Descendants.{
  extend, to_list, remove_each, unlink, remove_loop, remove_children, remove_block_with_children,
}
use zk_ress.Buffer.Lru.{LruMap}
use zk_ress.Primitives.{Block}

-- `after` holds no block and no proof that `before` does not hold.
pub record Shrinks {M : LruMap} {B T : Type 0} (before after : BlockBuffer M B T) : Type 0 where
  pub blocks :
      (h : ℕ) (x : Block B) → lookup h after.blocks ≡ some x → lookup h before.blocks ≡ some x
  pub proofs : (h : ℕ) (p : T) → lookup h after.proofs ≡ some p → lookup h before.proofs ≡ some p

-- A block and a proof that were stored under one hash, of which the block is gone.
pub record Taken {M : LruMap} {B T : Type 0} (before after : BlockBuffer M B T) (e : Block B × T)
    : Type 0 where
  pub at : ℕ
  pub block : lookup at before.blocks ≡ some e.0
  pub proof : lookup at before.proofs ≡ some e.1
  pub gone : lookup at after.blocks ≡ none

module _ {M : LruMap} {B T : Type 0} where
  Shrinks-refl : (b : BlockBuffer M B T) → Shrinks b b
  Shrinks-refl b = record { blocks = λ h x e. e; proofs = λ h p e. e }

  Shrinks-trans : {a b c : BlockBuffer M B T} → Shrinks a b → Shrinks b c → Shrinks a c
  Shrinks-trans s t = record {
    blocks = λ h x e. s.blocks h x (t.blocks h x e);
    proofs = λ h p e. s.proofs h p (t.proofs h p e);
  }

  missing_stays :
      {a b : BlockBuffer M B T} (h : ℕ)
      → Shrinks a b
      → lookup h a.blocks ≡ none
      → lookup h b.blocks ≡ none
  missing_stays {a} {b} h s e = elim (Option-cases (lookup h b.blocks)) [
    | inl f ↦ f
    | inr (x, f) ↦ absurd (ground (arith, s.blocks h x f))
  ]

  Taken-before :
      {a b c : BlockBuffer M B T} (e : Block B × T) → Shrinks a b → Taken b c e → Taken a c e
  Taken-before e s t = record {
    at = t.at;
    block = s.blocks t.at e.0 t.block;
    proof = s.proofs t.at e.1 t.proof;
    gone = t.gone;
  }

  Taken-after :
      {a b c : BlockBuffer M B T} (e : Block B × T) → Taken a b e → Shrinks b c → Taken a c e
  Taken-after e t s = record {
    at = t.at;
    block = t.block;
    proof = t.proof;
    gone = missing_stays t.at s t.gone;
  }

  All-before :
      (a b c : BlockBuffer M B T) (es : List (Block B × T))
      → Shrinks a b
      → All (Taken b c) es
      → All (Taken a c) es
  All-before a b c [] s all = tt
  All-before a b c (e ∷ es) s all = (Taken-before e s all.0, All-before a b c es s all.1)

  All-after :
      (a b c : BlockBuffer M B T) (es : List (Block B × T))
      → All (Taken a b) es
      → Shrinks b c
      → All (Taken a c) es
  All-after a b c [] all s = tt
  All-after a b c (e ∷ es) all s = (Taken-after e all.0 s, All-after a b c es all.1 s)

  -- A step hands out blocks that it took.
  abbrev Hands : BlockBuffer M B T → BlockBuffer M B T × List (Block B × T) → Type 0
  Hands before (after, out) = Shrinks before after × All (Taken before after) out

  Hands-then :
      (a : BlockBuffer M B T) (r s : BlockBuffer M B T × List (Block B × T))
      → Hands a r
      → Hands r.0 s
      → Hands a (s.0, r.1 ++ s.1)
  Hands-then a (b, out) (c, more) (ab, all) (bc, all') = (
    Shrinks-trans ab bc,
    All-append (Taken a c) out more (All-after a b c out all bc) (All-before a b c more ab all'),
  )

  Hands-unlink :
      (p : ℕ) (b : BlockBuffer M B T) (r : BlockBuffer M B T × List (Block B × T))
      → Hands (unlink p b) r
      → Hands b r
  Hands-unlink p b (c, out) (s, all) =
      let still : Shrinks b (unlink p b) = record { blocks = λ h x e. e; proofs = λ h q e. e } in
      (Shrinks-trans still s, All-before b (unlink p b) c out still all)

  detach-Shrinks : (h : ℕ) (x : Block B) (b : BlockBuffer M B T) → Shrinks b (detach h x b)
  unfolding detach
  detach-Shrinks h x b = record {
    blocks = λ k y e. ground (arith, lookup-remove h k b.blocks);
    proofs = λ k p e. ground (arith, lookup-remove h k b.proofs);
  }

  remove_block-Hands :
      (c : ℕ) (b : BlockBuffer M B T) → Hands b ((remove_block c b).0, to_list (remove_block c b).1)
  unfolding remove_block
  remove_block-Hands c b = elim (Option-cases (lookup c b.blocks)) [
    | inl missing ↦ rw (missing, remove_block) (Shrinks-refl b, tt)
    | inr (x, present) ↦ elim (Option-cases (lookup c b.proofs)) [
      | inl unproved ↦
          rw (present, unproved, remove_block)
            (
              record {
                blocks = λ k y e. e;
                proofs = λ k p e. ground (arith, lookup-remove c k b.proofs);
              },
              tt,
            )
      | inr (p, proved) ↦
          rw (present, proved, remove_block)
            (
              detach-Shrinks c x b,
              (record { at = c; block = present; proof = proved; gone = detach_gone c x b }, tt),
            )
    ]
  ]
    where
      detach_gone :
          (h : ℕ) (x : Block B) (d : BlockBuffer M B T) → lookup h (detach h x d).blocks ≡ none
      detach_gone h x d = unfold detach in ground (arith, lookup-remove h h d.blocks)

  remove_each-Hands : (cs : List ℕ) (b : BlockBuffer M B T) → Hands b (remove_each cs b)
  unfolding remove_each
  remove_each-Hands [] b = (Shrinks-refl b, tt)
  remove_each-Hands (c ∷ cs) b =
      Hands-then b ((remove_block c b).0, to_list (remove_block c b).1)
        (remove_each cs (remove_block c b).0) (remove_block-Hands c b)
        (remove_each-Hands cs (remove_block c b).0)

  remove_loop-Hands :
      (fuel : ℕ) (stack : List ℕ) (b : BlockBuffer M B T) → Hands b (remove_loop fuel stack b)
  unfolding remove_loop
  remove_loop-Hands zero stack b = (Shrinks-refl b, tt)
  remove_loop-Hands (suc fuel) [] b = (Shrinks-refl b, tt)
  remove_loop-Hands (suc fuel) (p ∷ stack) b = elim (Option-cases (lookup p b.parent_to_child)) [
    | inl missing ↦ rw (missing, remove_loop) (remove_loop-Hands fuel stack b)
    | inr (children, present) ↦
        rw (present, remove_loop)
          (Hands-then b (remove_each children (unlink p b))
            (remove_loop fuel (extend children stack) (remove_each children (unlink p b)).0)
            (Hands-unlink p b (remove_each children (unlink p b))
              (remove_each-Hands children (unlink p b)))
            (remove_loop-Hands fuel _ _))
  ]

  -- Each pair that remove_block_with_children hands out was stored under one hash, block and
  -- proof, and that block is stored no more; nothing is added to the buffer.
  pub remove_block_with_children-Taken :
      (hash : ℕ) (b : BlockBuffer M B T)
      → Shrinks b (remove_block_with_children hash b).0
        × All (Taken b (remove_block_with_children hash b).0) (remove_block_with_children hash b).1
  unfolding remove_block_with_children remove_children
  remove_block_with_children-Taken hash b =
      Hands-then b ((remove_block hash b).0, to_list (remove_block hash b).1)
        (remove_children (hash ∷ []) (remove_block hash b).0) (remove_block-Hands hash b)
        (remove_loop-Hands _ _ _)
