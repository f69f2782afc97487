-- ===== src/Buffer/Insert.antt =====
-- crates/engine/src/tree/block_buffer.rs: `insert_block` and its eviction.
use zk_ress.Base.{
  ℕ, ◌≤◌, ◌<◌, ◌≡◌, refl, ap, sym, subst, ◌∙◌, true, false, List, ◌∷◌, Option, none, some, arith,
  ◌==◌, Bool-cases, List-cases, is_some, inl, inr, length,
}
use zk_ress.Base.Sets.{mem}
use zk_ress.Base.Maps.{lookup, insert, at, insert_at, lookup-insert, IsSorted-insert, mem-insert_at}
use zk_ress.Buffer.{
  BlockBuffer, detach, evict_block, insert_block, is_full_for, insert_hash_and_get_evicted,
  evict_oldest, remove_from_parent,
}
use zk_ress.Buffer.Invariant.{IsValid, IsValidBut, detach-IsValid, remove_at-IsSorted}
use zk_ress.Buffer.Lru.{LruMap, IsLru, first, rest}
use zk_ress.Primitives.{Block}

is_some_elim : {A : Type 0} (o : Option A) → is_some o ≡ true → (a : A) × (o ≡ some a)
is_some_elim none e = cc
is_some_elim (some a) e = (a, refl)

remove_from_parent-IsValid :
    {M : LruMap} {B T : Type 0} (p h : ℕ) (b : BlockBuffer M B T)
    → IsValid b
    → IsValid (remove_from_parent p h b)
unfolding remove_from_parent
remove_from_parent-IsValid p h b v = record {
  own = v.own;
  tracked = v.tracked;
  dated = v.dated;
  bounded = v.bounded;
  positive = v.positive;
  dates_sorted = v.dates_sorted;
  parents_sorted = remove_at-IsSorted p h b.parent_to_child v.parents_sorted;
}

module _ {M : LruMap} {B T : Type 0} (laws : IsLru M) (block : Block B)
    (b : BlockBuffer M B T) where
  -- The buffer behind the three insertions of `insert_block`.
  abbrev pub stored : BlockBuffer M B T
  stored = record b {
    parent_to_child = insert_at block.parent_hash block.hash b.parent_to_child;
    earliest_blocks = insert_at block.number block.hash b.earliest_blocks;
    blocks = insert block.hash block b.blocks;
  }

  stored_own : IsValid b → (h : ℕ) (x : Block B) → lookup h stored.blocks ≡ some x → x.hash ≡ h
  stored_own v h x e = ground (arith, lookup-insert block.hash h block b.blocks, v.own h x)

  stored_dated :
      IsValid b
      → (h : ℕ) (x : Block B) → lookup h stored.blocks ≡ some x
      → mem h (at x.number stored.earliest_blocks) ≡ true
  stored_dated v h x e = ground (
    arith,
    lookup-insert block.hash h block b.blocks,
    mem-insert_at block.number block.hash x.number h b.earliest_blocks,
    v.dated h x,
  )

  -- With room and a new hash, the limit is not reached.
  has_room :
      is_full_for block.hash stored ≡ false
      → mem block.hash (M.keys b.lru) ≡ false
      → length (M.keys b.lru) < M.max_length b.lru
  unfolding is_full_for
  has_room room fresh = ground (arith, laws.peek_keys block.hash b.lru, laws.len_keys b.lru)

  insert_tracked :
      IsValid b
      → is_full_for block.hash stored ≡ false
      → (h : ℕ)
      → mem h (M.keys (M.get_or_insert block.hash b.lru)) ≡ is_some (lookup h stored.blocks)
  insert_tracked v room h = elim (Bool-cases (mem block.hash (M.keys b.lru))) [
    | inl seen ↦ ground (
      arith,
      laws.keys_touch block.hash h b.lru seen,
      lookup-insert block.hash h block b.blocks,
      v.tracked h,
    )
    | inr fresh ↦ ground (
      arith,
      laws.keys-get_or_insert block.hash h b.lru (has_room room fresh),
      lookup-insert block.hash h block b.blocks,
      v.tracked h,
    )
  ]

  insert_bounded :
      IsValid b
      → is_full_for block.hash stored ≡ false
      → length (M.keys (M.get_or_insert block.hash b.lru))
        ≤ M.max_length (M.get_or_insert block.hash b.lru)
  insert_bounded v room = elim (Bool-cases (mem block.hash (M.keys b.lru))) [
    | inl seen ↦ omega (
      arith,
      v.bounded,
      laws.length_touch block.hash b.lru seen,
      laws.max_length-get_or_insert block.hash b.lru,
    )
    | inr fresh ↦ omega (
      arith,
      has_room room fresh,
      laws.length-get_or_insert block.hash b.lru (has_room room fresh),
      laws.max_length-get_or_insert block.hash b.lru,
    )
  ]

  -- There is room, or the hash was there.
  insert_roomy :
      IsValid b
      → is_full_for block.hash stored ≡ false
      → IsValid (record stored { lru = M.get_or_insert block.hash b.lru })
  unfolding is_full_for insert_at
  insert_roomy v room = record {
    own = stored_own v;
    tracked = insert_tracked v room;
    dated = stored_dated v;
    bounded = insert_bounded v room;
    positive = rw (laws.max_length-get_or_insert block.hash b.lru) v.positive;
    dates_sorted = IsSorted-insert block.number _ b.earliest_blocks v.dates_sorted;
    parents_sorted = IsSorted-insert block.parent_hash _ b.parent_to_child v.parents_sorted;
  }

  module _ (v : IsValid b) (k : ℕ) (ks : List ℕ) (e : M.keys b.lru ≡ k ∷ ks) where
    popped_keys : M.keys (M.pop_oldest b.lru).0 ≡ ks
    popped_keys = laws.keys-pop_oldest b.lru ∙ ap rest e

    popped_room : length (M.keys (M.pop_oldest b.lru).0) < M.max_length (M.pop_oldest b.lru).0
    popped_room =
        omega
          (arith, v.bounded, ap length popped_keys, ap length e, laws.max_length-pop_oldest b.lru)

    full_tracked :
        (h : ℕ)
        → (k == h) ≡ false
        → mem h (M.keys (M.get_or_insert block.hash (M.pop_oldest b.lru).0))
          ≡ is_some (lookup h stored.blocks)
    unfolding mem
    full_tracked h other =
        let in_rest : mem h (M.keys b.lru) ≡ mem h ks = rw e (ground arith) in
        rw (laws.keys-get_or_insert block.hash h (M.pop_oldest b.lru).0 popped_room, popped_keys)
          (ground (arith, in_rest, lookup-insert block.hash h block b.blocks, v.tracked h))

    full_bounded :
        length (M.keys (M.get_or_insert block.hash (M.pop_oldest b.lru).0))
        ≤ M.max_length (M.get_or_insert block.hash (M.pop_oldest b.lru).0)
    full_bounded = omega (
      arith,
      popped_room,
      laws.length-get_or_insert block.hash (M.pop_oldest b.lru).0 popped_room,
      laws.max_length-get_or_insert block.hash (M.pop_oldest b.lru).0,
    )

    full_positive : 0 < M.max_length (M.get_or_insert block.hash (M.pop_oldest b.lru).0)
    full_positive =
        rw
          (
            laws.max_length-get_or_insert block.hash (M.pop_oldest b.lru).0,
            laws.max_length-pop_oldest b.lru,
          )
          v.positive

    -- A full buffer that does not hold the hash holds the oldest one.
    pub oldest_stored :
        is_full_for block.hash stored ≡ true → (x : Block B) × (lookup k stored.blocks ≡ some x)
    unfolding is_full_for mem
    oldest_stored full =
        let fresh : mem block.hash (k ∷ ks) ≡ false =
          subst (λ l. mem block.hash l ≡ false) e
            (ground (arith, laws.peek_keys block.hash b.lru)) in
        let held : is_some (lookup k b.blocks) ≡ true =
          ground (arith, v.tracked k, subst (λ l. mem k l ≡ true) (sym e) (ground arith)) in
        is_some_elim (lookup k stored.blocks)
          (ground (arith, lookup-insert block.hash k block b.blocks))

  -- The oldest hash is popped; it is stored, and not the new one.
  insert_full :
      IsValid b
      → (k : ℕ) (ks : List ℕ) → M.keys b.lru ≡ k ∷ ks
      → is_full_for block.hash stored ≡ true
      → IsValidBut k (record stored { lru = M.get_or_insert block.hash (M.pop_oldest b.lru).0 })
  unfolding is_full_for insert_at mem
  insert_full v k ks e full = record {
    own = stored_own v;
    tracked = full_tracked v k ks e;
    dated = stored_dated v;
    bounded = full_bounded v k ks e;
    positive = full_positive v k ks e;
    dates_sorted = IsSorted-insert block.number _ b.earliest_blocks v.dates_sorted;
    parents_sorted = IsSorted-insert block.parent_hash _ b.parent_to_child v.parents_sorted;
  }

  -- With a positive limit, a full buffer holds some hash.
  pub keys_nonempty :
      IsValid b
      → is_full_for block.hash stored ≡ true
      → (k : ℕ) × (ks : List ℕ) × (M.keys b.lru ≡ k ∷ ks)
  unfolding is_full_for
  keys_nonempty v full = elim (List-cases (M.keys b.lru)) [
    | inl empty ↦ absurd (ground (arith, v.positive, laws.len_keys b.lru, ap length empty))
    | inr some_key ↦ some_key
  ]

  evicts :
      (k : ℕ) (x : Block B) (t : BlockBuffer M B T)
      → lookup k t.blocks ≡ some x
      → evict_oldest (some k) t ≡ remove_from_parent x.parent_hash k (detach k x t)
  unfolding evict_oldest evict_block
  evicts k x t e = ground arith

  pub insert_with_room :
      is_full_for block.hash stored ≡ false
      → insert_block block b ≡ record stored { lru = M.get_or_insert block.hash b.lru }
  unfolding insert_block insert_hash_and_get_evicted evict_oldest
  insert_with_room room = rw (room, insert_hash_and_get_evicted)

  pub insert_evicting :
      (k : ℕ) (ks : List ℕ) (x : Block B)
      → M.keys b.lru ≡ k ∷ ks
      → is_full_for block.hash stored ≡ true
      → lookup k stored.blocks ≡ some x
      → insert_block block b
        ≡ remove_from_parent x.parent_hash k
            (detach k x (record stored { lru = M.get_or_insert block.hash (M.pop_oldest b.lru).0 }))
  unfolding insert_block insert_hash_and_get_evicted
  insert_evicting k ks x e full found =
      let popped : (M.pop_oldest b.lru).1 ≡ some k = laws.pop_oldest_first b.lru ∙ ap first e in
      rw (full, insert_hash_and_get_evicted, popped)
        (evicts k x (record stored { lru = M.get_or_insert block.hash (M.pop_oldest b.lru).0 })
          found)

  -- With an LruMap that keeps its documented laws, inserting a block into the buffer keeps its
  -- invariant (blocks under their own hash, the recency list holds exactly the stored hashes and
  -- no more than the limit, each block listed under its number), whether the block is new, known,
  -- or drives the oldest out.
  pub insert_block-IsValid : IsValid b → IsValid (insert_block block b)
  insert_block-IsValid v = elim (Bool-cases (is_full_for block.hash stored)) [
    | inl full ↦
        let (k, ks, e) = keys_nonempty v full in
        let (x, found) = oldest_stored v k ks e full in
        rw (insert_evicting k ks x e full found) (
          remove_from_parent-IsValid x.parent_hash k _
            (detach-IsValid laws k x _ (insert_full v k ks e full)))
    | inr room ↦ rw (insert_with_room room) (insert_roomy v room)
  ]
