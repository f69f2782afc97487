-- ===== src/Base/Sets.antt =====
-- Sets of hashes, as lists without repetition. The order of the list stands for the order in
-- which the set is iterated.
use Prim.Native.Nat.{ℕ, ◌≤◌}
use mathlib.Core.Path.{◌≡◌, refl}
use mathlib.Core.Bool.{Bool, true, false, ◌||◌}
use mathlib.Core.List.{List, [], ◌∷◌, ◌++◌}
use native.Mathlib.Omega.{arith}
use zk_ress.Base.Tests.{◌==◌, if◌then◌else◌}
use zk_ress.Base.Lists.{length}

unfoldable pub mem : ℕ → List ℕ → Bool
mem k [] = false
mem k (x ∷ s) = if x == k then true else mem k s

-- `HashSet::insert`
unfoldable pub set_insert : ℕ → List ℕ → List ℕ
set_insert x s = if mem x s then s else x ∷ s

-- `HashSet::remove`
unfoldable pub set_remove : ℕ → List ℕ → List ℕ
set_remove x [] = []
set_remove x (y ∷ s) = if y == x then set_remove x s else y ∷ set_remove x s

pub mem-set_insert :
    (k x : ℕ) (s : List ℕ) → mem k (set_insert x s) ≡ (if x == k then true else mem k s)
unfolding mem set_insert
mem-set_insert k x s = ground arith

pub mem-set_remove :
    (k x : ℕ) (s : List ℕ) → mem k (set_remove x s) ≡ (if x == k then false else mem k s)
unfolding mem set_remove
mem-set_remove k x [] = ground arith
mem-set_remove k x (y ∷ s) = ground (arith, mem-set_remove k x s)

pub length-set_remove-le : (x : ℕ) (s : List ℕ) → length (set_remove x s) ≤ length s
unfolding set_remove
length-set_remove-le x [] = omega arith
length-set_remove-le x (y ∷ s) = ground (arith, length-set_remove-le x s)

pub mem-append : (k : ℕ) (s t : List ℕ) → mem k (s ++ t) ≡ (mem k s || mem k t)
unfolding mem
mem-append k [] t = refl
mem-append k (x ∷ s) t = ground (arith, mem-append k s t)
