-- ===== src/Buffer/Lru.antt =====
-- What the block buffer uses of the crate `schnellru`: an `LruMap<BlockHash, ()>` limited by length.
use zk_ress.Base.{
  ℕ, suc, ◌≤◌, ◌<◌, ◌≡◌, Bool, true, false, List, [], ◌∷◌, Option, none, some, if◌then◌else◌, ◌==◌,
  length,
}
use zk_ress.Base.Sets.{mem}

pub record LruMap : Type 1 where
  pub State : Type 0
  -- `LruMap::new(ByLength::new(limit))`
  pub new : ℕ → State
  -- The keys, the oldest first.
  pub keys : State → List ℕ
  -- `peek(key).is_some()`
  pub peek : ℕ → State → Bool
  pub len : State → ℕ
  -- `limiter().max_length()`
  pub max_length : State → ℕ
  pub pop_oldest : State → State × Option ℕ
  -- `get_or_insert(key, || ())`
  pub get_or_insert : ℕ → State → State
  pub remove : ℕ → State → State

abbrev pub first : List ℕ → Option ℕ
first [] = none
first (k ∷ _) = some k

abbrev pub rest : List ℕ → List ℕ
rest [] = []
rest (_ ∷ ks) = ks

-- The documented behaviour that the buffer relies on. Of `get_or_insert` nothing is assumed for a
-- new key in a map that is full.
pub record IsLru (M : LruMap) : Type 0 where
  pub keys-new : (limit : ℕ) → M.keys (M.new limit) ≡ []
  pub max_length-new : (limit : ℕ) → M.max_length (M.new limit) ≡ limit
  pub peek_keys : (k : ℕ) (s : M.State) → M.peek k s ≡ mem k (M.keys s)
  pub len_keys : (s : M.State) → M.len s ≡ length (M.keys s)
  pub pop_oldest_first : (s : M.State) → (M.pop_oldest s).1 ≡ first (M.keys s)
  pub keys-pop_oldest : (s : M.State) → M.keys (M.pop_oldest s).0 ≡ rest (M.keys s)
  pub keys-get_or_insert :
      (k j : ℕ) (s : M.State)
      → length (M.keys s) < M.max_length s
      → mem j (M.keys (M.get_or_insert k s)) ≡ (if k == j then true else mem j (M.keys s))
  pub keys_touch :
      (k j : ℕ) (s : M.State)
      → mem k (M.keys s) ≡ true
      → mem j (M.keys (M.get_or_insert k s)) ≡ mem j (M.keys s)
  pub keys-remove :
      (k j : ℕ) (s : M.State)
      → mem j (M.keys (M.remove k s)) ≡ (if k == j then false else mem j (M.keys s))
  -- A key is there once, the number of keys stays within the limit, and the limit stays.
  pub keys_distinct : (s : M.State) (k : ℕ) (ks : List ℕ) → M.keys s ≡ k ∷ ks → mem k ks ≡ false
  pub length-get_or_insert :
      (k : ℕ) (s : M.State)
      → length (M.keys s) < M.max_length s
      → length (M.keys (M.get_or_insert k s)) ≤ suc (length (M.keys s))
  pub length_touch :
      (k : ℕ) (s : M.State)
      → mem k (M.keys s) ≡ true
      → length (M.keys (M.get_or_insert k s)) ≡ length (M.keys s)
  pub length-remove-le : (k : ℕ) (s : M.State) → length (M.keys (M.remove k s)) ≤ length (M.keys s)
  pub max_length-pop_oldest : (s : M.State) → M.max_length (M.pop_oldest s).0 ≡ M.max_length s
  pub max_length-get_or_insert :
      (k : ℕ) (s : M.State) → M.max_length (M.get_or_insert k s) ≡ M.max_length s
  pub max_length-remove : (k : ℕ) (s : M.State) → M.max_length (M.remove k s) ≡ M.max_length s
