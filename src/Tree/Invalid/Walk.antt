-- ===== src/Tree/Invalid/Walk.antt =====
-- crates/engine/src/tree/mod.rs: the walk of `latest_valid_hash_for_invalid_payload` over the cache of
-- invalid headers.
use zk_ress.Base.{
  ℕ, zero, suc, ◌+◌, ◌<◌, ◌≡◌, ◌≤◌, refl, true, List, [], ◌∷◌, Option, none, some, Option-cases,
  Bool-cases, inl, inr, arith, is_some, if◌then◌else◌, leb, length, ◌==◌, ==_iff, ap,
}
use zk_ress.Base.Sets.{mem}
use zk_ress.Env.{Env, BlockWithParent}
use zk_ress.Primitives.{SealedHeader}
use zk_ress.Tree.{EngineTree, stored}
use zk_ress.Tree.Invalid.{valid_ancestor, latest_valid_hash_for_invalid_payload}

-- A cached entry has a parent of lower rank: headers link back in no circle.
abbrev pub Falls : (env : Env) → (ℕ → ℕ) → env.Cache → Type 0
Falls env rank cache =
    (h : ℕ) (b : BlockWithParent) → (env.cache_get h cache).1 ≡ some b → rank b.parent < rank h

-- Each hash with an entry is among the keys.
abbrev pub HasKeys : (env : Env) → List ℕ → env.Cache → Type 0
HasKeys env keys cache =
    (h : ℕ) (b : BlockWithParent) → (env.cache_get h cache).1 ≡ some b → mem h keys ≡ true

-- To look up a hash adds no entry.
abbrev pub Forgets : Env → Type 0
Forgets env =
    (cache : env.Cache) (h k : ℕ) (b : BlockWithParent)
    → (env.cache_get k (env.cache_get h cache).0).1 ≡ some b
    → (env.cache_get k cache).1 ≡ some b

-- How many of the keys have a rank up to a bound.
module _ (rank : ℕ → ℕ) where
  abbrev count : List ℕ → ℕ → ℕ
  count [] bound = 0
  count (k ∷ keys) bound = (if leb (rank k) bound then 1 else 0) + count keys bound

  count-length : (keys : List ℕ) (bound : ℕ) → count keys bound ≤ length keys
  count-length [] bound = omega arith
  count-length (k ∷ keys) bound = ground (arith, count-length keys bound)

  count_mono : (keys : List ℕ) (a b : ℕ) → a ≤ b → count keys a ≤ count keys b
  count_mono [] a b le = omega arith
  count_mono (k ∷ keys) a b le = ground (arith, count_mono keys a b le)

  count_lt :
      (keys : List ℕ) (h a : ℕ)
      → mem h keys ≡ true
      → a < rank h
      → count keys a < count keys (rank h)
  unfolding mem
  count_lt [] h a e lt = cc
  count_lt (k ∷ keys) h a e lt = elim (Bool-cases (k == h)) [
    | inl same ↦
        let equal : rank k ≡ rank h = ap rank ((==_iff k h).0 same) in
        ground (arith, equal, count_mono keys a (rank h) (omega arith))
    | inr other ↦ ground (arith, count_lt keys h a, count_mono keys a (rank h) (omega arith))
  ]

module _ {env : Env} where
  abbrev looked_up : ℕ → EngineTree env → EngineTree env
  looked_up hash tree = record tree {
    invalid_headers = (env.cache_get hash tree.invalid_headers).0;
  }

  -- The loop of the code, as long as it runs: it follows the entries, and answers by the first parent
  -- that has none.
  pub data Walks : EngineTree env → BlockWithParent → EngineTree env × Option ℕ → Type 0 where
    stops :
        {tree : EngineTree env} {current : BlockWithParent}
        → (env.cache_get current.parent tree.invalid_headers).1 ≡ none
        → Walks tree current (
          looked_up current.parent tree,
          if is_some (stored tree current.parent) then some current.parent else none,
        )
    goes :
        {tree : EngineTree env} {current : BlockWithParent} {r : EngineTree env × Option ℕ}
        (b : BlockWithParent)
        → (env.cache_get current.parent tree.invalid_headers).1 ≡ some b
        → Walks (looked_up current.parent tree) b r
        → Walks tree current r

  -- How the code finds the latest valid hash.
  pub data Finds : ℕ → EngineTree env → EngineTree env × Option ℕ → Type 0 where
    at_once :
        {hash : ℕ} {tree : EngineTree env} (h : SealedHeader)
        → stored tree hash ≡ some h
        → Finds hash tree (tree, some hash)
    not_cached :
        {hash : ℕ} {tree : EngineTree env}
        → stored tree hash ≡ none
        → (env.cache_get hash tree.invalid_headers).1 ≡ none
        → Finds hash tree (looked_up hash tree, none)
    walked :
        {hash : ℕ} {tree : EngineTree env} {r : EngineTree env × Option ℕ} (b : BlockWithParent)
        → stored tree hash ≡ none
        → (env.cache_get hash tree.invalid_headers).1 ≡ some b
        → Walks (looked_up hash tree) b r
        → Finds hash tree r

  module _ (forgets : Forgets env) (rank : ℕ → ℕ) where
    valid_ancestor-Walks :
        (fuel : ℕ) (tree : EngineTree env) (current : BlockWithParent)
        → Falls env rank tree.invalid_headers
        → rank current.parent < fuel
        → Walks tree current (valid_ancestor fuel tree current)
    unfolding valid_ancestor
    valid_ancestor-Walks zero tree current falls lt = absurd (omega (arith, lt))
    valid_ancestor-Walks (suc fuel) tree current falls lt =
        elim (Option-cases (env.cache_get current.parent tree.invalid_headers).1) [
          | inl absent ↦ rw (absent, valid_ancestor) (stops absent)
          | inr (b, present) ↦
              let lower = falls current.parent b present in
              rw (present, valid_ancestor)
                (goes b present (
                  valid_ancestor-Walks fuel (looked_up current.parent tree) b
                    (λ h c e. falls h c (forgets tree.invalid_headers current.parent h c e))
                    (omega arith)))
        ]

  valid_ancestor_stored :
      (fuel : ℕ) (tree : EngineTree env) (current : BlockWithParent) (v : ℕ)
      → (valid_ancestor fuel tree current).1 ≡ some v
      → (h : SealedHeader) × (stored tree v ≡ some h)
  unfolding valid_ancestor
  valid_ancestor_stored zero tree current v e = cc
  valid_ancestor_stored (suc fuel) tree current v e =
      let (cache, next) = env.cache_get current.parent tree.invalid_headers in
      elim (Option-cases (env.cache_get current.parent tree.invalid_headers).1) [
        | inl absent ↦ elim (Option-cases (stored tree current.parent)) [
          | inl missing ↦ cc (rw (absent, valid_ancestor, missing) at e)
          | inr (h, known) ↦
              let same : some current.parent ≡ some v = rw (absent, valid_ancestor, known) at e in
              (h, ground (arith, known, same))
        ]
        | inr (b, present) ↦
            valid_ancestor_stored fuel (record tree { invalid_headers = cache }) b v
              (rw (present, valid_ancestor) at e)
      ]

  latest_valid_hash_stored :
      (parent_hash : ℕ) (tree : EngineTree env) (v : ℕ)
      → (latest_valid_hash_for_invalid_payload parent_hash tree).1 ≡ some v
      → (h : SealedHeader) × (stored tree v ≡ some h)
  unfolding latest_valid_hash_for_invalid_payload
  latest_valid_hash_stored parent_hash tree v e =
      let (cache, current) = env.cache_get parent_hash tree.invalid_headers in
      elim (Option-cases (stored tree parent_hash)) [
        | inr (h, known) ↦
            let same : some parent_hash ≡ some v =
              rw (known, latest_valid_hash_for_invalid_payload) at e in
            (h, ground (arith, known, same))
        | inl unknown ↦ elim (Option-cases (env.cache_get parent_hash tree.invalid_headers).1) [
          | inl absent ↦ cc (rw (unknown, absent, latest_valid_hash_for_invalid_payload) at e)
          | inr (b, present) ↦
              valid_ancestor_stored 257 (record tree { invalid_headers = cache }) b v
                (rw (unknown, present, latest_valid_hash_for_invalid_payload) at e)
        ]
      ]

  abbrev pub StoredIf : EngineTree env → Option ℕ → Type 0
  StoredIf tree none = Unit
  StoredIf tree (some v) = (h : SealedHeader) × (stored tree v ≡ some h)

  -- If the cache of invalid headers holds entries under at most 256 keys, its limit, a lookup adds
  -- no entry, and the parent of each entry has a lower rank, so that headers link back in no
  -- circle, then latest_valid_hash_for_invalid_payload returns what the unbounded loop of the code
  -- returns: the hash itself if it is stored, nothing if it has no entry, and else what following
  -- the entries ends with at the first parent that has none; a hash that it returns is that of a
  -- stored block.
  pub latest_valid_hash_lem :
      (keys : List ℕ) (rank : ℕ → ℕ) (parent_hash : ℕ) (tree : EngineTree env)
      → Forgets env
      → HasKeys env keys tree.invalid_headers
      → length keys ≤ 256
      → Falls env rank tree.invalid_headers
      → Finds parent_hash tree (latest_valid_hash_for_invalid_payload parent_hash tree)
        × StoredIf tree (latest_valid_hash_for_invalid_payload parent_hash tree).1
  unfolding latest_valid_hash_for_invalid_payload
  latest_valid_hash_lem keys rank parent_hash tree forgets has_keys few falls = (
    elim (Option-cases (stored tree parent_hash)) [
      | inr (h, known) ↦ rw (known, latest_valid_hash_for_invalid_payload) (at_once h known)
      | inl missing ↦ elim (Option-cases (env.cache_get parent_hash tree.invalid_headers).1) [
        | inl absent ↦
            rw (missing, absent, latest_valid_hash_for_invalid_payload) (not_cached missing absent)
        | inr (b, present) ↦
            rw (missing, present, latest_valid_hash_for_invalid_payload)
              (walked b missing present (
                valid_ancestor-Walks forgets place 257 (looked_up parent_hash tree) b
                  (λ h c e. place_falls h c (forgets tree.invalid_headers parent_hash h c e))
                  (omega (arith, few, count-length rank keys (rank b.parent)))))
      ]
    ],
    is_stored (latest_valid_hash_for_invalid_payload parent_hash tree).1 refl,
  )
    where
      place : ℕ → ℕ
      place h = count rank keys (rank h)

      place_falls : Falls env place tree.invalid_headers
      place_falls h b e = count_lt rank keys h (rank b.parent) (has_keys h b e) (falls h b e)

      is_stored :
          (r : Option ℕ)
          → (latest_valid_hash_for_invalid_payload parent_hash tree).1 ≡ r
          → StoredIf tree r
      is_stored none e = tt
      is_stored (some v) e = latest_valid_hash_stored parent_hash tree v e
