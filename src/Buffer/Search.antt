-- ===== src/Buffer/Search.antt =====
-- crates/engine/src/tree/block_buffer.rs: how the loop of `evict_children` searches the links.
use zk_ress.Base.{
  ℕ, zero, suc, ◌+◌, ◌≤◌, ◌≡◌, ◌⊎◌, refl, true, false, List, [], ◌∷◌, ◌++◌, none, some, arith, ◌==◌,
  if◌then◌else◌, Bool-cases, Option-cases, inl, inr, length, sym, ◌∙◌, ==_iff, subst,
}
use zk_ress.Base.Sets.{mem, mem-append}
use zk_ress.Base.Maps.{lookup, IsSorted, lookup-remove, IsSorted-remove}
use zk_ress.Buffer.{BlockBuffer, total}
use zk_ress.Buffer.Descendants.{extend, evict_each, unlink, evict_loop}
use zk_ress.Buffer.Drain.{extend-length, total-remove}
use zk_ress.Buffer.Evict.{evict_each-lookup}
use zk_ress.Buffer.Lru.{LruMap}
use zk_ress.Buffer.Links.{mem-extend, linked, evict_each-linked, evict_each-load}

module _ {M : LruMap} {B T : Type 0} where
  -- Where the loop is: the hashes seen so far are stored no more, and each of them waits on the stack or
  -- has no links left; a link that is gone led to a hash that was seen.
  pub record Searched (b cur : BlockBuffer M B T) (seen stack : List ℕ) : Type 0 where
    pub gone : (h : ℕ) → mem h seen ≡ true → lookup h cur.blocks ≡ none
    pub open_or_done :
        (p : ℕ) → mem p seen ≡ true → (mem p stack ≡ true) ⊎ ((h : ℕ) → linked cur p h ≡ false)
    pub links : (p h : ℕ) → linked b p h ≡ true → (linked cur p h ≡ true) ⊎ (mem h seen ≡ true)
    pub sorted : IsSorted cur.parent_to_child

  -- The hashes that were seen in the end: none is stored, and they are closed under the links.
  pub record Closed (b after : BlockBuffer M B T) (from : List ℕ) : Type 0 where
    pub seen : List ℕ
    pub begins : (h : ℕ) → mem h from ≡ true → mem h seen ≡ true
    pub gone : (h : ℕ) → mem h seen ≡ true → lookup h after.blocks ≡ none
    pub closed : (p h : ℕ) → mem p seen ≡ true → linked b p h ≡ true → mem h seen ≡ true

  ended : (b cur : BlockBuffer M B T) (seen : List ℕ) → Searched b cur seen [] → Closed b cur seen
  unfolding mem
  ended b cur seen v = record {
    seen = seen;
    begins = λ h e. e;
    gone = v.gone;
    closed = λ p h e link. elim (v.open_or_done p e) [
      | inl waits ↦ absurd (cc)
      | inr done ↦ elim (v.links p h link) [
        | inl still ↦ absurd (ground (arith, done h, still))
        | inr found ↦ found
      ]
    ];
  }

  -- A hash without children leaves the stack.
  skip-Searched :
      (b cur : BlockBuffer M B T) (p : ℕ) (seen stack : List ℕ)
      → lookup p cur.parent_to_child ≡ none
      → Searched b cur seen (p ∷ stack)
      → Searched b cur seen stack
  unfolding mem
  skip-Searched b cur p seen stack missing v = record {
    gone = v.gone;
    open_or_done = λ q e. elim (v.open_or_done q e) [
      | inr done ↦ inr done
      | inl waits ↦ elim (Bool-cases (p == q)) [
        | inl same ↦ inr (
            subst (λ k. (h : ℕ) → linked cur k h ≡ false) ((==_iff p q).0 same)
              (λ h. ground (arith, missing)))
        | inr other ↦ inl (ground arith)
      ]
    ];
    links = v.links;
    sorted = v.sorted;
  }

  unlink-linked :
      (p q h : ℕ) (b : BlockBuffer M B T)
      → linked (unlink p b) q h ≡ (if p == q then false else linked b q h)
  unfolding mem
  unlink-linked p q h b = ground (arith, lookup-remove p q b.parent_to_child)

  -- The children of a hash are evicted, and go on the stack.
  step-Searched :
      (b cur : BlockBuffer M B T) (p : ℕ) (children seen stack : List ℕ)
      → lookup p cur.parent_to_child ≡ some children
      → Searched b cur seen (p ∷ stack)
      → Searched b (evict_each children (unlink p cur)) (children ++ seen) (extend children stack)
  unfolding mem
  step-Searched b cur p children seen stack present v = record {
    gone = λ h e.
        ground (
          arith,
          evict_each-lookup children h (unlink p cur),
          mem-append h children seen,
          v.gone h,
        );
    open_or_done = λ q e. elim (Bool-cases (mem q children)) [
      | inl new ↦ inl (ground (arith, mem-extend q children stack))
      | inr old ↦ elim (v.open_or_done q (ground (arith, mem-append q children seen))) [
        | inr done ↦ inr (λ h.
            ground (
              arith,
              done h,
              unlink-linked p q h cur,
              evict_each-linked children q h (unlink p cur),
            ))
        | inl waits ↦ elim (Bool-cases (p == q)) [
          | inl same ↦ inr (λ h.
              ground
                (arith, unlink-linked p q h cur, evict_each-linked children q h (unlink p cur)))
          | inr other ↦ inl (ground (arith, mem-extend q children stack))
        ]
      ]
    ];
    links = λ q h link. elim (v.links q h link) [
      | inr found ↦ inr (ground (arith, mem-append h children seen))
      | inl still ↦ elim (Bool-cases (mem h children)) [
        | inl new ↦ inr (ground (arith, mem-append h children seen))
        | inr old ↦ inl (linked_still q h still old)
      ]
    ];
    sorted =
        (evict_each-load children (unlink p cur)
          (IsSorted-remove p cur.parent_to_child v.sorted)).1;
  }
    where
      linked_still :
          (q h : ℕ)
          → linked cur q h ≡ true
          → mem h children ≡ false
          → linked (evict_each children (unlink p cur)) q h ≡ true
      linked_still q h still old = elim (Bool-cases (p == q)) [
        | inl same ↦
            let equal = (==_iff p q).0 same in
            let at_p : linked cur p h ≡ true =
              subst (λ k. linked cur k h ≡ true) (sym equal) still in
            absurd (ground (arith, at_p, present, old))
        | inr other ↦
            ground (arith, unlink-linked p q h cur, evict_each-linked children q h (unlink p cur))
      ]

  pub evict_loop-Closed :
      (fuel : ℕ) (stack seen : List ℕ) (b cur : BlockBuffer M B T)
      → length stack + total cur.parent_to_child ≤ fuel
      → Searched b cur seen stack
      → Closed b (evict_loop fuel stack cur) seen
  unfolding evict_loop
  evict_loop-Closed zero [] seen b cur le v = ended b cur seen v
  evict_loop-Closed zero (p ∷ stack) seen b cur le v = absurd (omega (arith, le))
  evict_loop-Closed (suc fuel) [] seen b cur le v = ended b cur seen v
  evict_loop-Closed (suc fuel) (p ∷ stack) seen b cur le v =
      elim (Option-cases (lookup p cur.parent_to_child)) [
        | inl missing ↦
            rw (missing, evict_loop)
              (evict_loop-Closed fuel stack seen b cur (omega arith)
                (skip-Searched b cur p seen stack missing v))
        | inr (children, present) ↦
            let (lighter, sorted) =
              evict_each-load children (unlink p cur)
                (IsSorted-remove p cur.parent_to_child v.sorted) in
            let more =
              evict_loop-Closed fuel (extend children stack) (children ++ seen) b
                (evict_each children (unlink p cur))
                (omega (
                  arith,
                  lighter,
                  extend-length children stack,
                  total-remove p children cur.parent_to_child present,
                ))
                (step-Searched b cur p children seen stack present v) in
            rw (present, evict_loop)
              (record {
                seen = more.seen;
                begins = λ h e. more.begins h (ground (arith, mem-append h children seen));
                gone = more.gone;
                closed = more.closed;
              })
      ]

  -- What is not to go stays.
  pub evict_loop_spares :
      (Goes : ℕ → Type 0) (b : BlockBuffer M B T)
      → ((p h : ℕ) → Goes p → linked b p h ≡ true → Goes h)
      → (fuel : ℕ) (stack : List ℕ) (cur : BlockBuffer M B T) (h : ℕ)
      → ((k : ℕ) → mem k stack ≡ true → Goes k)
      → ((p k : ℕ) → linked cur p k ≡ true → linked b p k ≡ true)
      → ¬ Goes h
      → lookup h (evict_loop fuel stack cur).blocks ≡ lookup h cur.blocks
  unfolding evict_loop mem
  evict_loop_spares Goes b closed zero stack cur h goes old stays = refl
  evict_loop_spares Goes b closed (suc fuel) [] cur h goes old stays = refl
  evict_loop_spares Goes b closed (suc fuel) (p ∷ stack) cur h goes old stays =
      elim (Option-cases (lookup p cur.parent_to_child)) [
        | inl missing ↦
            rw (missing, evict_loop)
              (evict_loop_spares Goes b closed fuel stack cur h (λ k e. goes k (ground arith)) old
                stays)
        | inr (children, present) ↦
            let goes_child : (k : ℕ) → mem k children ≡ true → Goes k =
              (λ k e. closed p k (goes p (ground arith)) (old p k (ground (arith, present, e)))) in
            let next = evict_each children (unlink p cur) in
            let spared =
              evict_loop_spares Goes b closed fuel (extend children stack) next h
                (λ k e. elim (Bool-cases (mem k children)) [
                  | inl new ↦ goes_child k new
                  | inr other ↦ goes k (ground (arith, mem-extend k children stack))
                ])
                (λ q k e. old q k (
                  ground (
                    arith,
                    unlink-linked p q k cur,
                    evict_each-linked children q k (unlink p cur),
                  )))
                stays in
            rw (present, evict_loop) (spared ∙ kept children goes_child)
      ]
    where
      kept :
          (children : List ℕ)
          → ((k : ℕ) → mem k children ≡ true → Goes k)
          → lookup h (evict_each children (unlink p cur)).blocks ≡ lookup h cur.blocks
      kept children goes_child = elim (Bool-cases (mem h children)) [
        | inl new ↦ absurd (stays (goes_child h new))
        | inr other ↦ ground (arith, evict_each-lookup children h (unlink p cur))
      ]
