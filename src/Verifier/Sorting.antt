-- ===== src/Verifier/Sorting.antt =====
-- crates/verifier/src/root.rs: sorting the entries of a hash map, and two updates of the state with the
-- same entries.
use zk_ress.Base.{ℕ, ◌<◌, ◌≤◌, ◌≡◌, ◌≢◌, refl, ap, ◌∙◌, List, [], ◌∷◌, arith}
use zk_ress.Base.Perms.{
  Reordered, empty, keep, swap, step, AllPairs-Reordered, DistinctKeys, KeysApart, KeysApart-sym,
}
use zk_ress.Reth.{HashedStorage, HashedPostState}
use zk_ress.Verifier.StateRoot.{insert_sorted, sorted_by_key}

module _ {V : Type 0} where
  insert_sorted_after :
      (k : ℕ) (v : V) (j : ℕ) (w : V) (rest : List (ℕ × V))
      → j < k
      → insert_sorted (k, v) ((j, w) ∷ rest) ≡ (j, w) ∷ insert_sorted (k, v) rest
  unfolding insert_sorted
  insert_sorted_after k v j w rest below = ground arith

  insert_sorted_here :
      (k : ℕ) (v : V) (j : ℕ) (w : V) (rest : List (ℕ × V))
      → k ≤ j
      → insert_sorted (k, v) ((j, w) ∷ rest) ≡ (k, v) ∷ (j, w) ∷ rest
  unfolding insert_sorted
  insert_sorted_here k v j w rest above = ground arith

  insert_sorted_nil : (k : ℕ) (v : V) → insert_sorted (k, v) [] ≡ (k, v) ∷ []
  unfolding insert_sorted
  insert_sorted_nil k v = refl

  ruleset sorting = (insert_sorted_after, insert_sorted_here, insert_sorted_nil)

  insert_sorted_comm :
      (k : ℕ) (v : V) (j : ℕ) (w : V) (rest : List (ℕ × V))
      → k ≢ j
      → insert_sorted (k, v) (insert_sorted (j, w) rest)
        ≡ insert_sorted (j, w) (insert_sorted (k, v) rest)
  insert_sorted_comm k v j w [] apart = grind (arith, sorting)
  insert_sorted_comm k v j w ((i, u) ∷ rest) apart =
      grind (arith, sorting, insert_sorted_comm k v j w rest apart)

  -- The entries of a map, sorted, are the same in whatever order they come.
  pub sorted_by_key_lem :
      {xs ys : List (ℕ × V)}
      → Reordered xs ys
      → DistinctKeys xs
      → sorted_by_key xs ≡ sorted_by_key ys
  unfolding sorted_by_key
  sorted_by_key_lem empty apart = refl
  sorted_by_key_lem (keep x moved) (first, later) =
      ap (insert_sorted x) (sorted_by_key_lem moved later)
  sorted_by_key_lem (swap (k, v) (j, w) rest) ((kj, k_rest), later) =
      insert_sorted_comm k v j w (sorted_by_key rest) kj
  sorted_by_key_lem (step one two) apart =
      sorted_by_key_lem one apart
      ∙ sorted_by_key_lem two (AllPairs-Reordered KeysApart KeysApart-sym one apart)

-- The same storages in the same order, the slots of each in an order of their own.
abbrev pub SameSlots : List (ℕ × HashedStorage) → List (ℕ × HashedStorage) → Type 0
SameSlots [] [] = Unit
SameSlots ((a, x) ∷ xs) ((b, y) ∷ ys) =
    (a ≡ b)
    × (x.wiped ≡ y.wiped)
    × Reordered x.storage y.storage
    × DistinctKeys x.storage
    × SameSlots xs ys
SameSlots xs ys = ⊥

-- Two updates of the state with the same entries, each key once: the accounts, the storages and the
-- slots of each storage may come in another order.
pub record SameUpdate (state state' : HashedPostState) : Type 0 where
  pub same_accounts : Reordered state.accounts state'.accounts
  pub account_once : DistinctKeys state.accounts
  pub middle : List (ℕ × HashedStorage)
  pub same_storages : Reordered state.storages middle
  pub storage_once : DistinctKeys state.storages
  pub same_slots : SameSlots middle state'.storages
