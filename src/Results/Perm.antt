-- ===== src/Results/Perm.antt =====
-- A loop that may leave with an error, over its entries in another order.
use zk_ress.Base.{◌≡◌, refl, sym, ◌∙◌, List, ◌∷◌}
use zk_ress.Base.Perms.{Reordered, empty, keep, swap, step, AllPairs, AllPairs-Reordered}
use zk_ress.Env.{Result, ok, err}
use zk_ress.Results.{◌>>=◌, >>=-eq-ok, try_fold}

module _ {ℓ κ μ ν} {A : Type ℓ} {S : Type κ} {E : Type μ} (Apart : A → A → Type ν)
    (symmetric : (x y : A) → Apart x y → Apart y x) (body : A → S → Result S E) where
  -- Two turns of the loop that are apart may be swapped if both succeed.
  abbrev pub Commutes : Type (ℓ ⊔ κ ⊔ μ ⊔ ν)
  Commutes =
      (x y : A) (s t : S) → Apart x y → (body x s >>= body y) ≡ ok t → (body y s >>= body x) ≡ ok t

  two_turns :
      (x y : A) (rest : List A) (s : S)
      → try_fold body (x ∷ y ∷ rest) s ≡ ((body x s >>= body y) >>= try_fold body rest)
  two_turns x y rest s = by_first (body x s)
    where
      by_first :
          (r : Result S E)
          → (r >>= try_fold body (y ∷ rest)) ≡ ((r >>= body y) >>= try_fold body rest)
      by_first (ok a) = refl
      by_first (err e) = refl

  pub try_fold-Reordered :
      Commutes
      → {xs ys : List A} (s : S) {t : S} → Reordered xs ys
      → AllPairs Apart xs
      → try_fold body xs s ≡ ok t
      → try_fold body ys s ≡ ok t
  try_fold-Reordered comm s empty pairs h = h
  try_fold-Reordered comm s (keep x {xs} moved) (first, later) h =
      let (s', one, others) = >>=-eq-ok (body x s) (try_fold body xs) h in
      rw one (try_fold-Reordered comm s' moved later others)
  try_fold-Reordered comm s (swap x y rest) ((xy, x_rest), (y_rest, later)) h =
      let (s', both, others) =
        >>=-eq-ok (body x s >>= body y) (try_fold body rest) (sym (two_turns x y rest s) ∙ h) in
      two_turns y x rest s ∙ rw (comm x y s s' xy both) others
  try_fold-Reordered comm s (step one two) pairs h =
      try_fold-Reordered comm s two (AllPairs-Reordered Apart symmetric one pairs)
        (try_fold-Reordered comm s one pairs h)
