-- ===== src/Base/Maps.antt =====
-- Maps from numbers, as association lists. `insert` keeps the keys in rising order, so one type
-- serves for `HashMap`, which is not iterated, and for `BTreeMap`, whose first entry is read.
use Prim.Native.Nat.{ℕ, ◌≤◌, ◌<◌}
use mathlib.Core.Path.{◌≡◌, refl}
use mathlib.Core.Bool.{Bool, true}
use mathlib.Core.List.{List, [], ◌∷◌}
use mathlib.Core.Option.{Option, none, some}
use native.Mathlib.Omega.{arith}
use zk_ress.Base.Tests.{ltb, ◌==◌, if◌then◌else◌, is_some, unwrap_or}
use zk_ress.Base.Sets.{mem, set_insert, mem-set_insert}

abbrev pub Map {ℓ} : Type ℓ → Type ℓ
Map V = List (ℕ × V)

module _ {ℓ} {V : Type ℓ} where
  -- `get`
  unfoldable pub lookup : ℕ → Map V → Option V
  lookup wanted [] = none
  lookup wanted ((key, v) ∷ entries) = if key == wanted then some v else lookup wanted entries

  -- `insert`: the new value replaces the old one.
  unfoldable pub insert : ℕ → V → Map V → Map V
  insert k v [] = (k, v) ∷ []
  insert k v ((j, w) ∷ m) =
      if ltb k j then (k, v) ∷ (j, w) ∷ m else if j == k then (k, v) ∷ m else (j, w) ∷ insert k v m

  -- `remove`
  unfoldable pub remove : ℕ → Map V → Map V
  remove k [] = []
  remove k ((j, v) ∷ m) = if j == k then remove k m else (j, v) ∷ remove k m

  abbrev pub contains_key : ℕ → Map V → Bool
  contains_key k m = is_some (lookup k m)

  pub lookup-insert :
      (key wanted : ℕ) (new : V) (entries : Map V)
      → lookup wanted (insert key new entries)
        ≡ (if key == wanted then some new else lookup wanted entries)
  unfolding lookup insert
  lookup-insert key wanted new [] = refl
  lookup-insert key wanted new ((first, old) ∷ entries) =
      ground (arith, lookup-insert key wanted new entries)

  pub lookup-remove :
      (k j : ℕ) (m : Map V) → lookup j (remove k m) ≡ (if k == j then none else lookup j m)
  unfolding lookup remove
  lookup-remove k j [] = ground arith
  lookup-remove k j ((i, w) ∷ m) = ground (arith, lookup-remove k j m)

  -- Every key lies above `n`.
  abbrev pub Above : ℕ → Map V → Type 0
  Above n [] = Unit
  Above n ((k, _) ∷ m) = (n < k) × Above n m

  -- The keys rise along the list.
  abbrev pub IsSorted : Map V → Type 0
  IsSorted [] = Unit
  IsSorted ((k, _) ∷ m) = Above k m × IsSorted m

  pub Above-mono : (a b : ℕ) (m : Map V) → a ≤ b → Above b m → Above a m
  Above-mono a b [] h p = tt
  Above-mono a b ((k, _) ∷ m) h p = (omega arith, Above-mono a b m h p.1)

  pub Above-insert : (n k : ℕ) (v : V) (m : Map V) → n < k → Above n m → Above n (insert k v m)
  unfolding insert
  Above-insert n k v [] h p = (h, tt)
  Above-insert n k v ((j, w) ∷ m) h p = ground (arith, Above-insert n k v m h p.1)

  pub Above-remove : (n k : ℕ) (m : Map V) → Above n m → Above n (remove k m)
  unfolding remove
  Above-remove n k [] p = tt
  Above-remove n k ((j, w) ∷ m) p = ground (arith, Above-remove n k m p.1)

  pub IsSorted-insert : (k : ℕ) (v : V) (m : Map V) → IsSorted m → IsSorted (insert k v m)
  unfolding insert
  IsSorted-insert k v [] p = (tt, tt)
  IsSorted-insert k v ((j, w) ∷ m) p =
      ground (arith, Above-insert j k v m, IsSorted-insert k v m p.1, Above-mono k j m)

  pub IsSorted-remove : (k : ℕ) (m : Map V) → IsSorted m → IsSorted (remove k m)
  unfolding remove
  IsSorted-remove k [] p = tt
  IsSorted-remove k ((j, w) ∷ m) p = ground (arith, Above-remove j k m p.0, IsSorted-remove k m p.1)

  pub lookup_below : (n k : ℕ) (m : Map V) → Above n m → k ≤ n → lookup k m ≡ none
  unfolding lookup
  lookup_below n k [] p h = refl
  lookup_below n k ((j, w) ∷ m) p h = ground (arith, lookup_below n k m p.1 h)

-- `entry(k).or_default().insert(h)` on a map of sets.
unfoldable pub insert_at : ℕ → ℕ → Map (List ℕ) → Map (List ℕ)
insert_at k h m = insert k (set_insert h (unwrap_or (lookup k m) [])) m

-- The set under a key, empty where there is none.
abbrev pub at : ℕ → Map (List ℕ) → List ℕ
at k m = unwrap_or (lookup k m) []

-- Exactly one set gains exactly one hash.
pub mem-insert_at :
    (k h j x : ℕ) (m : Map (List ℕ))
    → mem x (at j (insert_at k h m))
      ≡ (if k == j then (if h == x then true else mem x (at j m)) else mem x (at j m))
unfolding insert_at
mem-insert_at k h j x m =
    ground (arith, lookup-insert k j (set_insert h (at k m)) m, mem-set_insert x h (at k m))
