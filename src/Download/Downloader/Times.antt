-- ===== src/Download/Downloader/Times.antt =====
-- crates/engine/src/download/mod.rs: how often a hash is asked for at a time.
use zk_ress.Base.{
  ℕ, ◌≤◌, ◌≡◌, refl, true, false, List, [], ◌∷◌, arith, ◌==◌, if◌then◌else◌, Bool-cases, inl, inr,
  ==_iff, ==_refl, subst, All, All-append,
}
use zk_ress.Download.Downloader.{any_for, push_new}
use zk_ress.Download.Downloader.Requests.{weigh, weigh-append}

-- 1 for the hash, 0 for others.
abbrev pub only : ℕ → ℕ → ℕ
only h k = if k == h then 1 else 0

abbrev pub never : ℕ → ℕ
never k = 0

module _ {F : Type 0} (hash_of : F → ℕ) (h : ℕ) where
  -- How often a hash is asked for.
  abbrev pub times : List F → ℕ
  times rs = weigh (λ r. only h (hash_of r)) rs

  any_for-times : (rs : List F) → any_for hash_of h rs ≡ false → times rs ≡ 0
  unfolding any_for
  any_for-times [] e = refl
  any_for-times (r ∷ rs) e = ground (arith, any_for-times rs)

  any_for-times_some : (rs : List F) → any_for hash_of h rs ≡ true → 1 ≤ times rs
  unfolding any_for
  any_for-times_some [] e = cc
  any_for-times_some (r ∷ rs) e = ground (arith, any_for-times_some rs)

module _ {F : Type 0} (hash_of : F → ℕ) where
  -- A hash that is asked for is in flight, once if it was at most once.
  pub push_new-times :
      (h : ℕ) (r : F) (rs : List F)
      → times hash_of h rs ≤ 1
      → times hash_of h (push_new hash_of r rs) ≤ 1
  unfolding push_new
  push_new-times h r rs v = elim (Bool-cases (any_for hash_of (hash_of r) rs)) [
    | inl known ↦ rw (known, push_new) v
    | inr new ↦
        let more = weigh-append (λ q. only h (hash_of q)) rs (r ∷ []) in
        elim (Bool-cases (hash_of r == h)) [
          | inl same ↦
              let absent : times hash_of h rs ≡ 0 =
                subst (λ k. times hash_of k rs ≡ 0) ((==_iff (hash_of r) h).0 same)
                  (any_for-times hash_of (hash_of r) rs new) in
              rw (new, push_new) (ground (arith, more, absent, same))
          | inr other ↦ rw (new, push_new) (ground (arith, more, v, other))
        ]
  ]

  pub push_new_grows :
      (weight : F → ℕ) (r : F) (rs : List F)
      → weigh weight rs ≤ weigh weight (push_new hash_of r rs)
  unfolding push_new
  push_new_grows weight r rs = ground (arith, weigh-append weight rs (r ∷ []))

  pub push_new-All :
      (Holds : F → Type 0) (r : F) (rs : List F)
      → Holds r
      → All Holds rs
      → All Holds (push_new hash_of r rs)
  unfolding push_new
  push_new-All Holds r rs w v = elim (Bool-cases (any_for hash_of (hash_of r) rs)) [
    | inl known ↦ rw (known, push_new) v
    | inr new ↦ rw (new, push_new) (All-append Holds rs (r ∷ []) v (w, tt))
  ]

  pub push_new-asked : (r : F) (rs : List F) → 1 ≤ times hash_of (hash_of r) (push_new hash_of r rs)
  unfolding push_new
  push_new-asked r rs = elim (Bool-cases (any_for hash_of (hash_of r) rs)) [
    | inl known ↦ rw (known, push_new) (any_for-times_some hash_of (hash_of r) rs known)
    | inr new ↦
        let more = weigh-append (λ q. only (hash_of r) (hash_of q)) rs (r ∷ []) in
        let same = ==_refl (hash_of r) in rw (new, push_new) (ground (arith, more, same))
  ]
