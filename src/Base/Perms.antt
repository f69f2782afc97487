-- ===== src/Base/Perms.antt =====
-- Lists in another order, and what holds of every two of their entries. `Reordered` says how the
-- entries are moved; it is not truncated, since what is proved of it need not be a proposition.
use mathlib.Core.Path.{sym}
use mathlib.Core.Logic.{◌≢◌}
use mathlib.Core.List.{List, [], ◌∷◌, map}
use Prim.Native.Nat.{ℕ}
use zk_ress.Base.Lists.{All}

pub data Reordered {ℓ} {A : Type ℓ} : List A → List A → Type ℓ where
  empty : Reordered [] []
  keep : (x : A) {xs ys : List A} → Reordered xs ys → Reordered (x ∷ xs) (x ∷ ys)
  swap : (x y : A) (rest : List A) → Reordered (x ∷ y ∷ rest) (y ∷ x ∷ rest)
  step : {xs ys zs : List A} → Reordered xs ys → Reordered ys zs → Reordered xs zs

pub Reordered-refl {ℓ} : {A : Type ℓ} (xs : List A) → Reordered xs xs
Reordered-refl [] = empty
Reordered-refl (x ∷ xs) = keep x (Reordered-refl xs)

pub Reordered-sym {ℓ} : {A : Type ℓ} {xs ys : List A} → Reordered xs ys → Reordered ys xs
Reordered-sym empty = empty
Reordered-sym (keep x moved) = keep x (Reordered-sym moved)
Reordered-sym (swap x y rest) = swap y x rest
Reordered-sym (step first second) = step (Reordered-sym second) (Reordered-sym first)

pub Reordered-map {ℓ κ} :
    {A : Type ℓ} {B : Type κ} (f : A → B) {xs ys : List A}
    → Reordered xs ys
    → Reordered (map f xs) (map f ys)
Reordered-map f empty = empty
Reordered-map f (keep x moved) = keep (f x) (Reordered-map f moved)
Reordered-map f (swap x y rest) = swap (f x) (f y) (map f rest)
Reordered-map f (step first second) = step (Reordered-map f first) (Reordered-map f second)

module _ {ℓ κ} {A : Type ℓ} (Apart : A → A → Type κ) where
  -- Every two entries are apart.
  abbrev pub AllPairs : List A → Type κ
  AllPairs [] = Unit
  AllPairs (x ∷ xs) = All (Apart x) xs × AllPairs xs

module _ {ℓ κ} {A : Type ℓ} (Holds : A → Type κ) where
  pub All-Reordered : {xs ys : List A} → Reordered xs ys → All Holds xs → All Holds ys
  All-Reordered empty all = tt
  All-Reordered (keep x moved) (here, later) = (here, All-Reordered moved later)
  All-Reordered (swap x y rest) (first, (second, later)) = (second, (first, later))
  All-Reordered (step one two) all = All-Reordered two (All-Reordered one all)

module _ {ℓ κ} {A : Type ℓ} (Apart : A → A → Type κ)
    (symmetric : (x y : A) → Apart x y → Apart y x) where
  pub AllPairs-Reordered :
      {xs ys : List A} → Reordered xs ys → AllPairs Apart xs → AllPairs Apart ys
  AllPairs-Reordered empty pairs = tt
  AllPairs-Reordered (keep x moved) (first, later) =
      (All-Reordered (Apart x) moved first, AllPairs-Reordered moved later)
  AllPairs-Reordered (swap x y rest) ((xy, x_rest), (y_rest, later)) =
      ((symmetric x y xy, y_rest), (x_rest, later))
  AllPairs-Reordered (step one two) pairs = AllPairs-Reordered two (AllPairs-Reordered one pairs)

-- The entries of a map have different keys.
abbrev pub KeysApart {ℓ} : {V : Type ℓ} → ℕ × V → ℕ × V → Type 0
KeysApart x y = x.0 ≢ y.0

abbrev pub DistinctKeys {ℓ} : {V : Type ℓ} → List (ℕ × V) → Type 0
DistinctKeys {V = V} entries = AllPairs (KeysApart {V = V}) entries

pub KeysApart-sym {ℓ} : {V : Type ℓ} (x y : ℕ × V) → KeysApart x y → KeysApart y x
KeysApart-sym x y apart e = apart (sym e)
