-- ===== src/Verifier/StateRoot.antt =====
-- crates/verifier/src/root.rs: `calculate_state_root`. A leaf's path is the hash that it unpacks. The
-- storage tries are updated in parallel: `arrivals` puts the results in the order in which the
-- workers send them.
use zk_ress.Base.{
  ℕ, List, [], ◌∷◌, Option, none, some, ltb, ◌==◌, if◌then◌else◌, unwrap_or, map, ◌&&◌,
}
use zk_ress.Env.{Result, ok, err}
use zk_ress.Primitives.{is_zero}
use zk_ress.Results.{◌>>=◌, map_err, try_fold}
use zk_ress.Reth.{Account, HashedStorage, HashedPostState, Tries}

-- `sorted_unstable_by_key` on the entries of a hash map.
module _ {ℓ} {V : Type ℓ} where
  unfoldable pub insert_sorted : ℕ × V → List (ℕ × V) → List (ℕ × V)
  insert_sorted (k, v) [] = (k, v) ∷ []
  insert_sorted (k, v) ((j, w) ∷ rest) =
      if ltb j k then (j, w) ∷ insert_sorted (k, v) rest else (k, v) ∷ (j, w) ∷ rest

  unfoldable pub sorted_by_key : List (ℕ × V) → List (ℕ × V)
  sorted_by_key [] = []
  sorted_by_key (entry ∷ entries) = insert_sorted entry (sorted_by_key entries)

-- `Account::default`
abbrev pub default_account : Account
default_account = record { nonce = 0; balance = 0; bytecode_hash = none }

module _ (tries : Tries) where
  abbrev pub Arrival : Type 0
  Arrival = Result (ℕ × tries.StorageTrie) tries.TrieError

  -- What the first `map` takes out of the trie for each storage.
  unfoldable pub take_storage_tries :
      List (ℕ × HashedStorage)
      → tries.Trie
      → tries.Trie × List (ℕ × HashedStorage × Option tries.StorageTrie)
  take_storage_tries [] trie = (trie, [])
  take_storage_tries ((address, storage) ∷ storages) trie =
      let (taken, storage_trie) = tries.take_storage_trie address trie in
      let (left, rest) = take_storage_tries storages taken in
      (left, (address, storage, storage_trie) ∷ rest)

  unfoldable pub update_slot : ℕ × ℕ → tries.StorageTrie → Result tries.StorageTrie tries.TrieError
  update_slot (hashed_slot, value) storage_trie =
      if is_zero value
      then tries.remove_leaf hashed_slot storage_trie
      else tries.update_leaf hashed_slot (tries.encode_word value) storage_trie

  -- The work on one storage trie.
  unfoldable pub update_storage : ℕ × HashedStorage × Option tries.StorageTrie → Arrival
  unfolding sorted_by_key
  update_storage (address, storage, storage_trie) =
      let revealed = unwrap_or storage_trie tries.revealed_empty in
      do
        wiped ← if storage.wiped then tries.wipe revealed else ok revealed
        updated ← try_fold update_slot (sorted_by_key storage.storage) wiped
        ok (address, tries.compute_root updated)

  -- The loop over the channel: the first error that arrives is returned.
  unfoldable pub receive : Arrival → tries.Trie → Result tries.Trie tries.TrieError
  receive (ok (address, storage_trie)) trie =
      ok (tries.insert_storage_trie address storage_trie trie)
  receive (err e) trie = err e

  unfoldable pub account_storage_root : ℕ → tries.Trie → Result (tries.Trie × ℕ) tries.TrieError
  account_storage_root hashed_address trie = elim (tries.storage_trie_root hashed_address trie) [
    | some (trie', storage_root) ↦ ok (trie', storage_root)
    | none ↦ elim (tries.get_account_value trie hashed_address) [
      | some value ↦ map_err tries.rlp (tries.decode_account value) >>= λ account.
          ok (trie, account.storage_root)
      | none ↦ ok (trie, tries.empty_root_hash)
    ]
  ]

  -- The body of the loop over the accounts.
  unfoldable pub update_account :
      ℕ × Option Account → tries.Trie → Result tries.Trie tries.TrieError
  unfolding account_storage_root
  update_account (hashed_address, maybe_account) trie =
      let account = unwrap_or maybe_account default_account in
      do
        (trie', storage_root) ← account_storage_root hashed_address trie
        if tries.is_empty account && (storage_root == tries.empty_root_hash)
            then tries.remove_account_leaf hashed_address trie'
            else tries.update_account_leaf hashed_address
                (tries.encode_account (tries.into_trie_account account storage_root)) trie'

  unfoldable pub calculate_state_root :
      (List Arrival → List Arrival)
      → HashedPostState
      → tries.Trie
      → Result (tries.Trie × ℕ) tries.TrieError
  unfolding take_storage_tries update_storage receive sorted_by_key update_account
  calculate_state_root arrivals state trie =
      let (taken, work) = take_storage_tries state.storages trie in
      do
        stored ← try_fold receive (arrivals (map update_storage work)) taken
        updated ← try_fold update_account (sorted_by_key state.accounts) stored
        tries.root updated
