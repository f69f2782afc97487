-- ===== src/Provider/ChainUpdate.antt =====
-- crates/provider/src/provider.rs: the canonical hashes after `on_chain_update`.
use zk_ress.Base.{
  ℕ, ◌≡◌, refl, ◌∙◌, Bool, true, false, ◌&&◌, ◌||◌, List, [], ◌∷◌, Option, none, some, arith, ◌==◌,
  if◌then◌else◌, last?,
}
use zk_ress.Base.Maps.{Map, lookup, lookup-insert, lookup-remove}
use zk_ress.ChainState
use zk_ress.ChainState.{ChainStateInner, has_value}
use zk_ress.ChainState.Invariant.{
  IsConsistent, insert_canonical_hash-IsConsistent, remove_canonical_hash-IsConsistent,
}
use zk_ress.Primitives.{SealedHeader}
use zk_ress.Provider.{
  ZkRessProvider, remove_headers, insert_headers, on_chain_update, is_hash_canonical,
}

-- The hash of the last header with a number, or else what stood there before.
abbrev pub latest : ℕ → List SealedHeader → Option ℕ → Option ℕ
latest k [] before = before
latest k (h ∷ hs) before = latest k hs (if h.number == k then some h.hash else before)

-- Whether a header with this number and this hash is in the list.
abbrev pub lists : ℕ → ℕ → List SealedHeader → Bool
lists k hash [] = false
lists k hash (h ∷ hs) = (h.number == k && hash == h.hash) || lists k hash hs

-- A canonical hash, unless the list has a header with its number and its hash.
abbrev pub unless_listed : ℕ → List SealedHeader → Option ℕ → Option ℕ
unless_listed k hs none = none
unless_listed k hs (some hash) = if lists k hash hs then none else some hash

abbrev pub canonical : {B P : Type 0} → ℕ → ChainStateInner B P → Option ℕ
canonical k s = lookup k s.canonical_hashes_by_number

-- The value of a key is among the values.
pub has_value-lookup : (k v : ℕ) (m : Map ℕ) → lookup k m ≡ some v → has_value v m ≡ true
unfolding lookup has_value
has_value-lookup k v [] e = cc
has_value-lookup k v ((j, w) ∷ m) e = ground (arith, has_value-lookup k v m)

latest_tip :
    (hs : List SealedHeader) (tip : SealedHeader) (before : Option ℕ)
    → last? hs ≡ some tip
    → latest tip.number hs before ≡ some tip.hash
latest_tip [] tip before e = cc
latest_tip (h ∷ []) tip before e = ground arith
latest_tip (h ∷ g ∷ hs) tip before e = latest_tip (g ∷ hs) tip _ e

module _ {B P : Type 0} where
  canonical-remove_canonical_hash :
      (k n hash : ℕ) (s : ChainStateInner B P)
      → canonical k (ChainState.remove_canonical_hash n hash s) ≡ (
          if n == k
          then elim (canonical k s) [ none ↦ none | some x ↦ if x == hash then none else some x ]
          else canonical k s)
  unfolding ChainState.remove_canonical_hash
  canonical-remove_canonical_hash k n hash s =
      ground (arith, lookup-remove n k s.canonical_hashes_by_number)

  canonical-remove_headers :
      (k : ℕ) (hs : List SealedHeader) (s : ChainStateInner B P)
      → canonical k (remove_headers hs s) ≡ unless_listed k hs (canonical k s)
  unfolding remove_headers
  canonical-remove_headers k [] s = ground arith
  canonical-remove_headers k (h ∷ hs) s = ground (
    arith,
    canonical-remove_headers k hs (ChainState.remove_canonical_hash h.number h.hash s),
    canonical-remove_canonical_hash k h.number h.hash s,
  )

  canonical-insert_headers :
      (k : ℕ) (hs : List SealedHeader) (s : ChainStateInner B P)
      → canonical k (insert_headers hs s) ≡ latest k hs (canonical k s)
  unfolding insert_headers ChainState.insert_canonical_hash
  canonical-insert_headers k [] s = refl
  canonical-insert_headers k (h ∷ hs) s =
      rw (canonical-insert_headers k hs (ChainState.insert_canonical_hash h.number h.hash s))
        (rw (lookup-insert h.number k h.hash s.canonical_hashes_by_number))

  -- After on_chain_update a number has the hash of the last new header with that number; without
  -- one it has no hash if the old headers list its canonical hash, and else the hash that it had.
  pub canonical-on_chain_update :
      (added removed : List SealedHeader) (p : ZkRessProvider B P) (k : ℕ)
      → canonical k (on_chain_update added removed p).chain_state
        ≡ latest k added (unless_listed k removed (canonical k p.chain_state))
  unfolding on_chain_update
  canonical-on_chain_update added removed p k = rw (
    canonical-insert_headers k added (remove_headers removed p.chain_state),
    canonical-remove_headers k removed p.chain_state,
  )

  -- After on_chain_update the last of the new headers, if there is one, is canonical at its number
  -- and its hash is canonical.
  pub on_chain_update_tip :
      (added removed : List SealedHeader) (tip : SealedHeader) (p : ZkRessProvider B P)
      → last? added ≡ some tip
      → (canonical tip.number (on_chain_update added removed p).chain_state ≡ some tip.hash)
        × (is_hash_canonical (on_chain_update added removed p) tip.hash ≡ true)
  unfolding is_hash_canonical
  on_chain_update_tip added removed tip p e =
      let placed : canonical tip.number (on_chain_update added removed p).chain_state
          ≡ some tip.hash =
        canonical-on_chain_update added removed p tip.number ∙ latest_tip added tip _ e in
      (placed, has_value-lookup tip.number tip.hash _ placed)

  remove_headers-IsConsistent :
      (hs : List SealedHeader) (s : ChainStateInner B P)
      → IsConsistent s
      → IsConsistent (remove_headers hs s)
  unfolding remove_headers
  remove_headers-IsConsistent [] s v = v
  remove_headers-IsConsistent (h ∷ hs) s v =
      remove_headers-IsConsistent hs _ (remove_canonical_hash-IsConsistent h.number h.hash s v)

  insert_headers-IsConsistent :
      (hs : List SealedHeader) (s : ChainStateInner B P)
      → IsConsistent s
      → IsConsistent (insert_headers hs s)
  unfolding insert_headers
  insert_headers-IsConsistent [] s v = v
  insert_headers-IsConsistent (h ∷ hs) s v =
      insert_headers-IsConsistent hs _ (insert_canonical_hash-IsConsistent h.number h.hash s v)

  pub on_chain_update-IsConsistent :
      (added removed : List SealedHeader) (p : ZkRessProvider B P)
      → IsConsistent p.chain_state
      → IsConsistent (on_chain_update added removed p).chain_state
  unfolding on_chain_update
  on_chain_update-IsConsistent added removed p v =
      insert_headers-IsConsistent added _ (remove_headers-IsConsistent removed p.chain_state v)
