-- ===== src/Buffer/Evicted.antt =====
-- crates/engine/src/tree/block_buffer.rs: exactly what `evict_old_blocks` evicts.
use zk_ress.Base.{
  ℕ, ◌+◌, ◌<◌, ◌≡◌, ◌↔◌, refl, true, List, [], some, arith, Bool-cases, inl, inr, length, ◌∙◌,
}
use zk_ress.Base.Sets.{mem}
use zk_ress.Base.Maps.{lookup, IsSorted}
use zk_ress.Buffer.{BlockBuffer, pop_until, total}
use zk_ress.Buffer.Descendants.{extend, evict_each, evict_children, evict_old_blocks, work}
use zk_ress.Buffer.Evict.{evict_each-lookup, evict_old_blocks_late}
use zk_ress.Buffer.Invariant.{IsValid}
use zk_ress.Buffer.Lru.{LruMap, IsLru}
use zk_ress.Buffer.Pops.{pop_until-popped}
use zk_ress.Primitives.{Block}
use zk_ress.Buffer.Links.{
  mem-extend, pop_until_listed, linked, Evicted, listed, child, evict_each-linked, evict_each-load,
}
use zk_ress.Buffer.Search.{Searched, Closed, evict_loop-Closed, evict_loop_spares}

module _ {M : LruMap} {B T : Type 0} (laws : IsLru M) where
  -- Where the loop begins.
  start-Searched :
      (hashes : List ℕ) (b cur : BlockBuffer M B T)
      → cur.parent_to_child ≡ b.parent_to_child
      → IsSorted b.parent_to_child
      → Searched b (evict_each hashes cur) hashes (extend hashes [])
  unfolding mem
  start-Searched hashes b cur same v = record {
    gone = λ h e. ground (arith, evict_each-lookup hashes h cur);
    open_or_done = λ p e. inl (ground (arith, mem-extend p hashes []));
    links = λ p h link.
        let before : linked cur p h ≡ true = rw (same) link in
        elim (evict_each-linked hashes p h cur) [
          | inl as_before ↦ inl (as_before ∙ before)
          | inr (gone, among) ↦ inr among
        ];
    sorted = (evict_each-load hashes cur (rw (same) v)).1;
  }

  -- With an LruMap that keeps its documented laws, on a valid buffer, exactly those blocks are
  -- stored after evict_old_blocks that were stored before, have a number above the one given, and
  -- neither are listed under a number up to it nor descend from such a hash by the links from
  -- parents to children; the fuel is enough.
  pub evict_old_blocks_exact :
      (n : ℕ) (b : BlockBuffer M B T) (h : ℕ) (x : Block B)
      → IsValid b
      → (lookup h (evict_old_blocks n b).blocks ≡ some x)
        ↔ ((lookup h b.blocks ≡ some x) × (n < x.number) × ¬ Evicted n b h)
  unfolding evict_old_blocks evict_children work
  evict_old_blocks_exact n b h x v = (left_was, left_stays)
    where
      hashes : List ℕ
      hashes = (pop_until n b.earliest_blocks).0

      cur : BlockBuffer M B T
      cur = record b { earliest_blocks = (pop_until n b.earliest_blocks).1 }

      search : Closed b (evict_old_blocks n b) hashes
      search =
          unfold evict_old_blocks in
          unfold evict_children in
          unfold work in
          evict_loop-Closed _ (extend hashes []) hashes b (evict_each hashes cur) (omega arith)
            (start-Searched hashes b cur refl v.parents_sorted)

      seen : (k : ℕ) → Evicted n b k → mem k search.seen ≡ true
      seen k (listed j le found) =
          search.begins k (pop_until-popped n j k b.earliest_blocks v.dates_sorted le found)
      seen k (child {p = p} evicted link) = search.closed p k (seen p evicted) link

      left_was :
          lookup h (evict_old_blocks n b).blocks ≡ some x
          → (lookup h b.blocks ≡ some x) × (n < x.number) × ¬ Evicted n b h
      left_was e =
          let (late, before) = evict_old_blocks_late laws n b h x v e in
          (before, late, λ evicted. cc (search.gone h (seen h evicted)))

      goes_popped : (k : ℕ) → mem k hashes ≡ true → Evicted n b k
      goes_popped k e =
          let (j, le, found) = pop_until_listed n k b.earliest_blocks v.dates_sorted e in
          listed j le found

      left_stays :
          (lookup h b.blocks ≡ some x) × (n < x.number) × ¬ Evicted n b h
          → lookup h (evict_old_blocks n b).blocks ≡ some x
      left_stays (before, late, stays) =
          let spared =
            evict_loop_spares (Evicted n b) b (λ p k evicted link. child evicted link)
              (length (extend hashes []) + total (evict_each hashes cur).parent_to_child)
              (extend hashes []) (evict_each hashes cur) h
              (λ k e. goes_popped k (unfold mem in ground (arith, mem-extend k hashes [])))
              (λ p k e. ground (arith, evict_each-linked hashes p k cur)) stays in
          spared ∙ kept
        where
          kept : lookup h (evict_each hashes cur).blocks ≡ some x
          kept = elim (Bool-cases (mem h hashes)) [
            | inl popped ↦ absurd (stays (goes_popped h popped))
            | inr other ↦ ground (arith, evict_each-lookup hashes h cur, before)
          ]
