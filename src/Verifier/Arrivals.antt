-- ===== src/Verifier/Arrivals.antt =====
-- crates/verifier/src/root.rs: the storage tries that the workers send back, in any order.
use zk_ress.Base.{ℕ, ◌≡◌, ◌≢◌, refl, sym, ap, ◌∙◌, List, [], ◌∷◌, map, Option, All}
use zk_ress.Base.Perms.{
  Reordered, empty, keep, swap, step, AllPairs, AllPairs-Reordered, DistinctKeys, KeysApart,
  KeysApart-sym,
}
use zk_ress.Env.{Result, ok, err}
use zk_ress.Results.{◌>>=◌, try_fold}
use zk_ress.Reth.{HashedStorage, Tries}
use zk_ress.Verifier.StateRoot.{
  sorted_by_key, Arrival, take_storage_tries, update_slot, update_storage, receive,
}

-- The storage tries lie in a map: what is done at two addresses may be done in either order.
pub record StorageTriesApart (tries : Tries) : Type 0 where
  pub insert_comm :
      (a b : ℕ) (x y : tries.StorageTrie) (trie : tries.Trie)
      → a ≢ b
      → tries.insert_storage_trie a x (tries.insert_storage_trie b y trie)
        ≡ tries.insert_storage_trie b y (tries.insert_storage_trie a x trie)
  pub take_comm :
      (a b : ℕ) (trie : tries.Trie)
      → a ≢ b
      → (tries.take_storage_trie b (tries.take_storage_trie a trie).0).0
        ≡ (tries.take_storage_trie a (tries.take_storage_trie b trie).0).0
  pub take_same :
      (a b : ℕ) (trie : tries.Trie)
      → a ≢ b
      → (tries.take_storage_trie b (tries.take_storage_trie a trie).0).1
        ≡ (tries.take_storage_trie b trie).1

module _ (tries : Tries) where
  abbrev pub Apart : Arrival tries → Arrival tries → Type 0
  Apart (ok (a, x)) (ok (b, y)) = a ≢ b
  Apart (ok (a, x)) (err e) = Unit
  Apart (err e) other = Unit

  pub Apart-sym : (x y : Arrival tries) → Apart x y → Apart y x
  Apart-sym (ok (a, x)) (ok (b, y)) apart = λ e. apart (sym e)
  Apart-sym (ok (a, x)) (err e) apart = tt
  Apart-sym (err e) (ok (a, x)) apart = tt
  Apart-sym (err e) (err f) apart = tt

  abbrev Work : Type 0
  Work = ℕ × HashedStorage × Option tries.StorageTrie

  abbrev Keyed : ℕ → Arrival tries → Type 0
  Keyed a (ok (b, x)) = b ≡ a
  Keyed a (err e) = Unit

  update_storage-Keyed : (work : Work) → Keyed work.0 (update_storage tries work)
  unfolding update_storage
  update_storage-Keyed (a, storage, maybe_trie) =
      after_both _ (try_fold (update_slot tries) (sorted_by_key storage.storage))
    where
      after_one :
          (updated : Result tries.StorageTrie tries.TrieError)
          → Keyed a (updated >>= λ u. ok (a, tries.compute_root u))
      after_one (ok u) = refl
      after_one (err e) = tt

      after_both :
          (wiped : Result tries.StorageTrie tries.TrieError)
          (slots : tries.StorageTrie → Result tries.StorageTrie tries.TrieError)
          → Keyed a (wiped >>= λ w. slots w >>= λ u. ok (a, tries.compute_root u))
      after_both (ok w) slots = after_one (slots w)
      after_both (err e) slots = tt

  Keyed-Apart : (a b : ℕ) (x y : Arrival tries) → a ≢ b → Keyed a x → Keyed b y → Apart x y
  Keyed-Apart a b (ok (c, x)) (ok (d, y)) apart e f = λ same. apart (sym e ∙ same ∙ f)
  Keyed-Apart a b (ok x) (err e) apart p q = tt
  Keyed-Apart a b (err e) y apart p q = tt

  abbrev pub arrivals_of : List (ℕ × HashedStorage) → tries.Trie → List (Arrival tries)
  arrivals_of storages trie = map (update_storage tries) (take_storage_tries tries storages trie).1

  arrivals_of-All :
      (work : Work) (storages : List (ℕ × HashedStorage)) (trie : tries.Trie)
      → All (λ s. work.0 ≢ s.0) storages
      → All (Apart (update_storage tries work)) (arrivals_of storages trie)
  unfolding take_storage_tries
  arrivals_of-All work [] trie all = tt
  arrivals_of-All work ((a, x) ∷ rest) trie (here, later) = (
    Keyed-Apart work.0 a (update_storage tries work) (update_storage tries (a, x, _)) here
        (update_storage-Keyed work) (update_storage-Keyed (a, x, _)),
    arrivals_of-All work rest _ later,
  )

  pub arrivals_of-AllPairs :
      (storages : List (ℕ × HashedStorage)) (trie : tries.Trie)
      → DistinctKeys storages
      → AllPairs Apart (arrivals_of storages trie)
  unfolding take_storage_tries
  arrivals_of-AllPairs [] trie apart = tt
  arrivals_of-AllPairs ((a, x) ∷ rest) trie (first, later) =
      (arrivals_of-All (a, x, _) rest _ first, arrivals_of-AllPairs rest _ later)

module _ (tries : Tries) (laws : StorageTriesApart tries) where
  pub receive_comm :
      (x y : Arrival tries) (trie last : tries.Trie)
      → Apart tries x y
      → (receive tries x trie >>= receive tries y) ≡ ok last
      → (receive tries y trie >>= receive tries x) ≡ ok last
  unfolding receive
  receive_comm (ok (a, x)) (ok (b, y)) trie last apart h =
      ap ok (laws.insert_comm a b x y trie apart) ∙ h
  receive_comm (ok (a, x)) (err e) trie last apart h = cc
  receive_comm (err e) y trie last apart h = cc

  pub take_lem :
      {xs ys : List (ℕ × HashedStorage)} (trie : tries.Trie)
      → Reordered xs ys
      → DistinctKeys xs
      → ((take_storage_tries tries xs trie).0 ≡ (take_storage_tries tries ys trie).0)
        × Reordered (take_storage_tries tries xs trie).1 (take_storage_tries tries ys trie).1
  unfolding take_storage_tries
  take_lem trie empty apart = (refl, empty)
  take_lem trie (keep (a, x) moved) (first, later) =
      let (same, others) = take_lem (tries.take_storage_trie a trie).0 moved later in
      (same, keep (a, x, (tries.take_storage_trie a trie).1) others)
  take_lem trie (swap (a, x) (b, y) rest) ((ab, a_rest), later) =
      rw
        (
          laws.take_comm a b trie ab,
          laws.take_same a b trie ab,
          laws.take_same b a trie (λ e. ab (sym e)),
        )
        (refl, swap _ _ _)
  take_lem trie (step one two) apart =
      let (same, moved) = take_lem trie one apart in
      let (same', moved') =
        take_lem trie two (AllPairs-Reordered KeysApart KeysApart-sym one apart) in
      (same ∙ same', step moved moved')
