-- ===== src/Buffer/Connects.antt =====
-- crates/engine/src/tree/block_buffer.rs: a block that waits for its parent is handed out with it.
use zk_ress.Base.{
  ℕ, suc, ◌≡◌, ◌⊎◌, refl, subst, true, false, List, [], ◌∷◌, ◌++◌, some, arith, ◌==◌, Bool-cases,
  Option-cases, inl, inr, ◌∙◌,
}
use zk_ress.Base.Sets.{mem}
use zk_ress.Base.Maps.{lookup, lookup-insert, lookup-remove, mem-insert_at, insert, insert_at}
use zk_ress.Buffer.{
  BlockBuffer, remove_block, insert_block, insert_proof, detach, remove_from_parent, is_full_for,
  total, remove_at,
}
use zk_ress.Buffer.Descendants.{
  to_list, remove_each, unlink, remove_loop, remove_children, remove_block_with_children, extend,
  work,
}
use zk_ress.Buffer.Drain.{remove_children_ends}
use zk_ress.Buffer.Insert as Insert
use zk_ress.Buffer.Insert.{insert_block-IsValid}
use zk_ress.Buffer.Invariant.{IsValid, mem-remove_at, insert_proof-IsValid, remove_block-IsValid}
use zk_ress.Buffer.Links.{linked}
use zk_ress.Buffer.Lru.{LruMap, IsLru}
use zk_ress.Primitives.{Block}

module _ {A : Type 0} (x : A) where
  -- The list holds the entry.
  abbrev pub Has : List A → Type 0
  Has [] = ⊥
  Has (y ∷ ys) = (y ≡ x) ⊎ Has ys

  Has-front : (xs ys : List A) → Has xs → Has (xs ++ ys)
  Has-front [] ys v = absurd v
  Has-front (y ∷ xs) ys (inl e) = inl e
  Has-front (y ∷ xs) ys (inr v) = inr (Has-front xs ys v)

  Has-back : (xs ys : List A) → Has ys → Has (xs ++ ys)
  Has-back [] ys v = v
  Has-back (y ∷ xs) ys v = inr (Has-back xs ys v)

module _ {M : LruMap} {B T : Type 0} where
  -- Taking out a block leaves the others, and the links to them.
  remove_block_other :
      (c h : ℕ) (b : BlockBuffer M B T)
      → (c == h) ≡ false
      → (lookup h (remove_block c b).0.blocks ≡ lookup h b.blocks)
        × (lookup h (remove_block c b).0.proofs ≡ lookup h b.proofs)
        × ((p : ℕ) → linked (remove_block c b).0 p h ≡ linked b p h)
  unfolding remove_block detach
  remove_block_other c h b other = elim (Option-cases (lookup c b.blocks)) [
    | inl missing ↦ rw (missing, remove_block) (refl, refl, λ p. refl)
    | inr (x, present) ↦
        let proofs = lookup-remove c h b.proofs in
        elim (Option-cases (lookup c b.proofs)) [
          | inl unproved ↦ rw (present, unproved, remove_block) (refl, ground arith, λ p. refl)
          | inr (q, proved) ↦
              rw (present, proved, remove_block)
                (
                  ground (arith, lookup-remove c h b.blocks),
                  ground arith,
                  λ p. ground (arith, mem-remove_at x.parent_hash c p h b.parent_to_child),
                )
        ]
  ]

  remove_each-Has :
      (cs : List ℕ) (h : ℕ) (x : Block B) (q : T) (b : BlockBuffer M B T)
      → mem h cs ≡ true
      → lookup h b.blocks ≡ some x
      → lookup h b.proofs ≡ some q
      → Has (x, q) (remove_each cs b).1
  unfolding remove_each mem remove_block
  remove_each-Has [] h x q b among stored proved = absurd (cc)
  remove_each-Has (c ∷ cs) h x q b among stored proved = elim (Bool-cases (c == h)) [
    | inl same ↦
        let at_c : lookup c b.blocks ≡ some x = ground (arith, stored) in
        let proof_c : lookup c b.proofs ≡ some q = ground (arith, proved) in
        rw (at_c, proof_c, remove_block) (inl refl)
    | inr other ↦
        let (same_block, same_proof, links) = remove_block_other c h b other in
        Has-back (x, q) (to_list (remove_block c b).1) (remove_each cs (remove_block c b).0).1
          (remove_each-Has cs h x q (remove_block c b).0 (ground arith) (same_block ∙ stored)
            (same_proof ∙ proved))
  ]

  remove_loop-Has :
      (fuel p h : ℕ) (x : Block B) (q : T) (b : BlockBuffer M B T)
      → linked b p h ≡ true
      → lookup h b.blocks ≡ some x
      → lookup h b.proofs ≡ some q
      → Has (x, q) (remove_loop (suc fuel) (p ∷ []) b).1
  unfolding remove_loop mem
  remove_loop-Has fuel p h x q b link stored proved =
      elim (Option-cases (lookup p b.parent_to_child)) [
        | inl missing ↦ absurd (ground (arith, link))
        | inr (children, present) ↦
            rw (present, remove_loop)
              (Has-front (x, q) (remove_each children (unlink p b)).1
                (remove_loop fuel (extend children []) (remove_each children (unlink p b)).0).1
                (remove_each-Has children h x q (unlink p b) (ground (arith, link)) stored proved))
      ]

module _ {M : LruMap} {B T : Type 0} (laws : IsLru M) where
  connected-Has :
      (p h : ℕ) (x : Block B) (q : T) (b : BlockBuffer M B T)
      → IsValid b
      → (p == h) ≡ false
      → linked b p h ≡ true
      → lookup h b.blocks ≡ some x
      → lookup h b.proofs ≡ some q
      → Has (x, q) (remove_block_with_children p b).1
  unfolding remove_block_with_children
  connected-Has p h x q b v other link stored proved =
      let next = (remove_block p b).0 in
      let (same_block, same_proof, links) = remove_block_other p h b other in
      let found =
        remove_loop-Has (total next.parent_to_child) p h x q next (links p ∙ link)
          (same_block ∙ stored) (same_proof ∙ proved) in
      Has-back (x, q) (to_list (remove_block p b).1) (remove_children (p ∷ []) next).1
        (subst (λ (r : BlockBuffer M B T × List (Block B × T)). Has (x, q) r.1)
          (remove_children_ends (suc (total next.parent_to_child)) (p ∷ []) next
            (remove_block-IsValid laws p b v).parents_sorted (unfold work in omega arith))
          found)

  -- An inserted block is stored and listed under its parent, whichever block has to make room.
  insert_block-linked :
      (block : Block B) (b : BlockBuffer M B T)
      → IsValid b
      → (lookup block.hash (insert_block block b).blocks ≡ some block)
        × (linked (insert_block block b) block.parent_hash block.hash ≡ true)
  unfolding is_full_for remove_from_parent detach mem
  insert_block-linked block b v =
      let found_new = lookup-insert block.hash block.hash block b.blocks in
      let linked_new =
        mem-insert_at block.parent_hash block.hash block.parent_hash block.hash b.parent_to_child in
      elim (Bool-cases (is_full_for block.hash (Insert.stored laws block b))) [
        | inr room ↦
            rw (Insert.insert_with_room laws block b room) (ground (arith, found_new, linked_new))
        | inl full ↦
            let (k, ks, e) = Insert.keys_nonempty laws block b v full in
            let (x, found) = Insert.oldest_stored laws block b v k ks e full in
            let fresh : mem block.hash (k ∷ ks) ≡ false =
              subst (λ l. mem block.hash l ≡ false) e
                (ground (arith, laws.peek_keys block.hash b.lru)) in
            let other : (k == block.hash) ≡ false = ground (arith, fresh) in
            let links = insert_at block.parent_hash block.hash b.parent_to_child in
            let left = remove_at x.parent_hash k links in
            rw (Insert.insert_evicting laws block b k ks x e full found) (
              ground (
                arith,
                found_new,
                other,
                lookup-remove k block.hash (insert block.hash block b.blocks),
              ),
              ground (
                arith,
                linked_new,
                other,
                mem-remove_at x.parent_hash k block.parent_hash block.hash links,
                mem-remove_at x.parent_hash k block.parent_hash block.hash left,
              ),
            )
      ]

  -- With an LruMap that keeps its documented laws, a block that is inserted into a valid buffer,
  -- whichever block it drives out, and whose proof is inserted, is handed out with that proof by
  -- remove_block_with_children for its parent hash, whether or not the parent is buffered, if the
  -- block is not its own parent.
  pub insert_block-connects :
      (block : Block B) (p : T) (b : BlockBuffer M B T)
      → IsValid b
      → (block.parent_hash == block.hash) ≡ false
      → Has
          (block, p)
          (remove_block_with_children block.parent_hash
            (insert_proof block.hash p (insert_block block b))).1
  unfolding insert_proof
  insert_block-connects block p b v other =
      let (stored, link) = insert_block-linked block b v in
      let after = insert_block block b in
      connected-Has block.parent_hash block.hash block p (insert_proof block.hash p after)
        (insert_proof-IsValid laws block.hash p after (insert_block-IsValid laws block b v)) other
        link stored (ground (arith, lookup-insert block.hash block.hash p after.proofs))
