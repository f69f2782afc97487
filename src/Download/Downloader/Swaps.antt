-- ===== src/Download/Downloader/Swaps.antt =====
-- crates/engine/src/download/mod.rs: what holds of all requests in flight, through `swap_remove`.
use zk_ress.Base.{ℕ, zero, suc, ◌≡◌, List, [], ◌∷◌, some, All, subst}
use zk_ress.Download.Downloader.{init, last_or, get_elem?, set, swap_remove}

module _ {F : Type 0} (Holds : F → Type 0) where
  pub get_elem?-All :
      (idx : ℕ) (rs : List F) (r : F) → All Holds rs → get_elem? rs idx ≡ some r → Holds r
  get_elem?-All idx [] r v e = cc
  get_elem?-All zero (x ∷ rs) r v e = let same : x ≡ r = cc in subst Holds same v.0
  get_elem?-All (suc idx) (x ∷ rs) r v e = get_elem?-All idx rs r v.1 e

  init-All : (rs : List F) → All Holds rs → All Holds (init rs)
  init-All [] v = tt
  init-All (x ∷ []) v = tt
  init-All (x ∷ y ∷ rs) v = (v.0, init-All (y ∷ rs) v.1)

  last_or-All : (d : F) (rs : List F) → Holds d → All Holds rs → Holds (last_or d rs)
  last_or-All d [] w v = w
  last_or-All d (x ∷ rs) w v = last_or-All x rs v.0 v.1

  set-All : (rs : List F) (idx : ℕ) (r : F) → Holds r → All Holds rs → All Holds (set rs idx r)
  set-All [] idx r w v = tt
  set-All (x ∷ rs) zero r w v = (w, v.1)
  set-All (x ∷ rs) (suc idx) r w v = (v.0, set-All rs idx r w v.1)

  pub swap_remove-All :
      (r : F) (idx : ℕ) (rs : List F) → Holds r → All Holds rs → All Holds (swap_remove r idx rs)
  unfolding swap_remove
  swap_remove-All r idx rs w v =
      set-All (init rs) idx (last_or r rs) (last_or-All r rs w v) (init-All rs v)
