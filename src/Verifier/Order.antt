-- ===== src/Verifier/Order.antt =====
-- crates/verifier/src/root.rs: the state root does not depend on the order in which hash maps are
-- iterated and workers finish.
use zk_ress.Base.{ℕ, ◌≡◌, refl, sym, ap, List, [], ◌∷◌, Option}
use zk_ress.Base.Perms.{
  Reordered, step, Reordered-sym, Reordered-map, AllPairs-Reordered, DistinctKeys,
}
use zk_ress.Env.{ok}
use zk_ress.Results.{>>=-eq-ok, try_fold}
use zk_ress.Results.Perm.{try_fold-Reordered}
use zk_ress.Reth.{HashedStorage, HashedPostState, Tries}
use zk_ress.Verifier.StateRoot.{
  Arrival, take_storage_tries, update_storage, receive, calculate_state_root,
}
use zk_ress.Verifier.Sorting.{sorted_by_key_lem, SameSlots, SameUpdate}
use zk_ress.Verifier.Arrivals.{
  StorageTriesApart, Apart, Apart-sym, receive_comm, take_lem, arrivals_of, arrivals_of-AllPairs,
}

module _ (tries : Tries) (laws : StorageTriesApart tries) where
  update_storage_slots :
      (a : ℕ) (x y : HashedStorage) (taken : Option tries.StorageTrie)
      → x.wiped ≡ y.wiped
      → Reordered x.storage y.storage
      → DistinctKeys x.storage
      → update_storage tries (a, x, taken) ≡ update_storage tries (a, y, taken)
  unfolding update_storage
  update_storage_slots a x y taken same_wipe moved apart =
      rw (same_wipe, sorted_by_key_lem moved apart) refl

  SameSlots_lem :
      (xs ys : List (ℕ × HashedStorage)) (trie : tries.Trie)
      → SameSlots xs ys
      → ((take_storage_tries tries xs trie).0 ≡ (take_storage_tries tries ys trie).0)
        × (arrivals_of tries xs trie ≡ arrivals_of tries ys trie)
  unfolding take_storage_tries
  SameSlots_lem [] [] trie same = (refl, refl)
  SameSlots_lem [] (_ ∷ ys) trie same = elim same [ ]
  SameSlots_lem ((a, x) ∷ xs) [] trie same = elim same [ ]
  SameSlots_lem ((a, x) ∷ xs) ((b, y) ∷ ys) trie (ab, same_wipe, moved, apart, later) =
      let (left, rest) = SameSlots_lem xs ys (tries.take_storage_trie a trie).0 later in
      rw
        (
          sym ab,
          update_storage_slots a x y (tries.take_storage_trie a trie).1 same_wipe moved apart,
        )
        (left, ap (λ l. update_storage tries (a, y, (tries.take_storage_trie a trie).1) ∷ l) rest)

  receive_lem :
      (arrivals arrivals' : List (Arrival tries) → List (Arrival tries))
      (state state' : HashedPostState) (trie : tries.Trie) {stored : tries.Trie}
      → ((rs : List (Arrival tries)) → Reordered rs (arrivals rs))
      → ((rs : List (Arrival tries)) → Reordered rs (arrivals' rs))
      → SameUpdate state state'
      → try_fold
          (receive tries)
          (arrivals (arrivals_of tries state.storages trie))
          (take_storage_tries tries state.storages trie).0
        ≡ ok stored
      → try_fold
          (receive tries)
          (arrivals' (arrivals_of tries state'.storages trie))
          (take_storage_tries tries state'.storages trie).0
        ≡ ok stored
  receive_lem arrivals arrivals' state state' trie moved moved' same h =
      let (left, work) = take_lem tries laws trie same.same_storages same.storage_once in
      let (left', sent) = SameSlots_lem same.middle state'.storages trie same.same_slots in
      let first = arrivals_of tries state.storages trie in
      let chain : Reordered (arrivals first) (arrivals' (arrivals_of tries same.middle trie)) =
        step (Reordered-sym (moved first))
          (step (Reordered-map (update_storage tries) work) (moved' _)) in
      rw (sym left', sym left, sym sent)
        (try_fold-Reordered (Apart tries) (Apart-sym tries) (receive tries)
          (receive_comm tries laws) _ chain
          (AllPairs-Reordered (Apart tries) (Apart-sym tries) (moved first)
            (arrivals_of-AllPairs tries state.storages trie same.storage_once))
          h)

  -- If what is done to the storage tries of two addresses may be done in either order, the state
  -- root that calculate_state_root returns, and the trie that it leaves, do not depend on the
  -- order in which the accounts, the storages and the slots of the update are iterated, nor on the
  -- order in which the results of the workers arrive, for an update with each key once.
  pub calculate_state_root-SameUpdate :
      (arrivals arrivals' : List (Arrival tries) → List (Arrival tries))
      (state state' : HashedPostState) (trie : tries.Trie) {found : tries.Trie × ℕ}
      → ((rs : List (Arrival tries)) → Reordered rs (arrivals rs))
      → ((rs : List (Arrival tries)) → Reordered rs (arrivals' rs))
      → SameUpdate state state'
      → calculate_state_root tries arrivals state trie ≡ ok found
      → calculate_state_root tries arrivals' state' trie ≡ ok found
  unfolding calculate_state_root
  calculate_state_root-SameUpdate arrivals arrivals' state state' trie moved moved' same h =
      let (stored, received, rest) =
        >>=-eq-ok
          (try_fold (receive tries) (arrivals (arrivals_of tries state.storages trie))
            (take_storage_tries tries state.storages trie).0)
          _ h in
      rw
        (
          receive_lem arrivals arrivals' state state' trie moved moved' same received,
          sym (sorted_by_key_lem same.same_accounts same.account_once),
        )
        rest
