-- ===== src/Download/Downloader/Requests.antt =====
-- crates/engine/src/download/mod.rs: what becomes of the requests in a poll.
use zk_ress.Base.{
  ℕ, zero, suc, ◌+◌, ◌≡◌, ◌∙◌, refl, sym, subst, List, [], ◌∷◌, ◌++◌, Option, none, some, arith,
  Option-cases, inl, inr, length, ◌≤◌, All, All-append, ap,
}
use zk_ress.Download.{Network}
use zk_ress.Download.Downloader.{
  DownloadData, full_block, proof, finalized_block, EngineDownloader, Answers, init, last_or,
  get_elem?, set, swap_remove, advance, advance_all, pop_outcome, poll, poll_block, poll_proof,
  poll_finalized,
}
use zk_ress.Download.Downloader.Futures.{
  Kept, RightBlock, RightFinalized, IsRight, poll_block-Kept, poll_proof-Kept, poll_finalized-Kept,
}
use zk_ress.Download.Downloader.Swaps.{get_elem?-All, swap_remove-All}

-- Requests weighed by their hash.
module _ {F : Type 0} (weight : F → ℕ) where
  abbrev pub weigh : List F → ℕ
  weigh [] = 0
  weigh (r ∷ rs) = weight r + weigh rs

  pub weigh-append : (xs ys : List F) → weigh (xs ++ ys) ≡ weigh xs + weigh ys
  weigh-append [] ys = omega arith
  weigh-append (x ∷ xs) ys = omega (arith, weigh-append xs ys)

  weigh-init :
      (x : F) (xs : List F) → weigh (init (x ∷ xs)) + weight (last_or x xs) ≡ weigh (x ∷ xs)
  weigh-init x [] = omega arith
  weigh-init x (y ∷ xs) = omega (arith, weigh-init y xs)

  set-weigh :
      (found : F) (idx : ℕ) (rs : List F)
      → get_elem? rs idx ≡ some found
      → weigh (set (init rs) idx (last_or found rs)) + weight found ≡ weigh rs
  set-weigh found zero [] e = cc
  set-weigh found zero (x ∷ []) e = let same : weight x ≡ weight found = cc in omega arith
  set-weigh found zero (x ∷ y ∷ rs) e =
      let same : weight x ≡ weight found = cc in omega (arith, weigh-init y rs)
  set-weigh found (suc idx) [] e = cc
  set-weigh found (suc idx) (x ∷ []) e = cc
  set-weigh found (suc idx) (x ∷ y ∷ rs) e = omega (arith, set-weigh found idx (y ∷ rs) e)

  pub swap_remove-weigh :
      (found : F) (idx : ℕ) (rs : List F)
      → get_elem? rs idx ≡ some found
      → weigh (swap_remove found idx rs) + weight found ≡ weigh rs
  unfolding swap_remove
  swap_remove-weigh found idx rs e = set-weigh found idx rs e

-- Requests that hold what is right of them, weighed by the hash that they are for.
module _ {F R O : Type 0} (Right : F → Type 0) (hash_of : F → ℕ) (found_hash : F → R → ℕ)
    (poll_one : F → F × Option R) (data_of : F → R → O) (weight : ℕ → ℕ) (worth : O → ℕ) where
  abbrev heavy : List F → ℕ
  heavy rs = weigh (λ r. weight (hash_of r)) rs

  -- A loop loses and doubles nothing, and its requests stay right.
  pub advance_lem :
      ((r : F) → Right r → Kept Right hash_of found_hash r (poll_one r))
      → ((r : F) (found : R) → worth (data_of r found) ≡ weight (found_hash r found))
      → (idx : ℕ) (rs : List F) (outs : List O) → All Right rs
      → (heavy (advance poll_one data_of idx rs outs).0
            + weigh worth (advance poll_one data_of idx rs outs).1
          ≡ heavy rs + weigh worth outs)
        × (heavy (advance poll_one data_of idx rs outs).0 ≤ heavy rs)
        × All Right (advance poll_one data_of idx rs outs).0
  unfolding advance
  advance_lem keeps makes zero rs outs v = (refl, omega arith, v)
  advance_lem keeps makes (suc idx) rs outs v = elim (Option-cases (get_elem? rs idx)) [
    | inl missing ↦ rw (missing, advance) (refl, omega arith, v)
    | inr (r, there) ↦
        let removed = swap_remove-weigh (λ q. weight (hash_of q)) r idx rs there in
        let right = get_elem?-All Right idx rs r v there in
        let left = swap_remove-All Right r idx rs right v in
        let polled = (poll_one r).0 in
        elim (Option-cases (poll_one r).1) [
          | inl waits ↦
              let (same_hash, still) : (hash_of polled ≡ hash_of r) × Right polled =
                (let kept = keeps r right in rw (waits) at kept) in
              let same : weight (hash_of polled) ≡ weight (hash_of r) = ap weight same_hash in
              let more =
                weigh-append (λ q. weight (hash_of q)) (swap_remove r idx rs) (polled ∷ []) in
              let (all, fewer, rights) =
                advance_lem keeps makes idx (swap_remove r idx rs ++ polled ∷ []) outs
                  (All-append Right (swap_remove r idx rs) (polled ∷ []) left (still, tt)) in
              rw (there, advance, waits) (omega arith, omega arith, rights)
          | inr (found, done) ↦
              let same_hash : found_hash polled found ≡ hash_of r =
                (let kept = keeps r right in rw (done) at kept) in
              let same : worth (data_of polled found) ≡ weight (hash_of r) =
                makes polled found ∙ ap weight same_hash in
              let more = weigh-append worth outs (data_of polled found ∷ []) in
              let (all, fewer, rights) =
                advance_lem keeps makes idx (swap_remove r idx rs)
                  (outs ++ data_of polled found ∷ []) left in
              rw (there, advance, done) (omega arith, omega arith, rights)
        ]
  ]

All-any : {A : Type 0} (xs : List A) → All {0, 0} (λ x. Unit {0}) xs
All-any [] = tt
All-any (x ∷ xs) = (tt, All-any xs)

module _ {B P : Type 0} where
  pub poll_waits :
      (net : Network B P) (answers : Answers net) (this : EngineDownloader B P)
      → this.outcomes ≡ []
      → poll net answers this
        ≡ pop_outcome (advance_all net answers this).outcomes (advance_all net answers this)
  unfolding poll
  poll_waits net answers this e =
      let advanced = advance_all net answers this in
      subst
        (λ outs.
          elim outs [
            | o ∷ os ↦ (record this { outcomes = os }, some o)
            | [] ↦ pop_outcome advanced.outcomes advanced
          ]
          ≡ pop_outcome advanced.outcomes advanced)
        (sym e) refl

module _ {B P : Type 0} (blocks proofs finalized : ℕ → ℕ) where
  abbrev pub worth : DownloadData B P → ℕ
  worth (full_block block) = blocks block.hash
  worth (proof hash witness) = proofs hash
  worth (finalized_block block headers) = finalized block.hash

  -- The requests in flight and the outcomes that wait, each weighed by its kind and hash.
  abbrev pub weigh_all : EngineDownloader B P → ℕ
  weigh_all this =
      weigh (λ r. blocks r.block_hash) this.inflight_full_block_requests
      + weigh proofs this.inflight_proof_requests
      + weigh (λ r. finalized r.block_hash) this.inflight_finalized_block_requests
      + weigh worth this.outcomes

  abbrev pub worth_some : Option (DownloadData B P) → ℕ
  worth_some none = 0
  worth_some (some out) = worth out

  -- What the three loops of a poll leave: requests that weigh, with the outcomes, what those before weigh,
  -- of each kind no more than before, and right.
  pub record Advanced (net : Network B P) (before after : EngineDownloader B P) : Type 0 where
    pub same : weigh_all after ≡ weigh_all before
    pub fewer_blocks :
        weigh (λ r. blocks r.block_hash) after.inflight_full_block_requests
        ≤ weigh (λ r. blocks r.block_hash) before.inflight_full_block_requests
    pub fewer_proofs :
        weigh proofs after.inflight_proof_requests ≤ weigh proofs before.inflight_proof_requests
    pub fewer_finalized :
        weigh (λ r. finalized r.block_hash) after.inflight_finalized_block_requests
        ≤ weigh (λ r. finalized r.block_hash) before.inflight_finalized_block_requests
    pub still : IsRight net after

  pub advance_all-Advanced :
      (net : Network B P) (answers : Answers net) (this : EngineDownloader B P)
      → IsRight net this
      → Advanced net this (advance_all net answers this)
  unfolding advance_all
  advance_all-Advanced net answers this (right_bs, right_fs) =
      let fs = this.inflight_finalized_block_requests in
      let bs = this.inflight_full_block_requests in
      let ps = this.inflight_proof_requests in
      let (fs', outs) =
        advance (poll_finalized net answers) (λ request found. finalized_block found.0 found.1)
          (length fs) fs this.outcomes in
      let (bs', outs') =
        advance (poll_block net answers) (λ request block. full_block block) (length bs) bs outs in
      let (same_fs, fewer_fs, still_fs) =
        advance_lem (RightFinalized net) (λ r. r.block_hash) (λ r found. found.0.hash)
          (poll_finalized net answers) (λ request found. finalized_block found.0 found.1) finalized
          worth (poll_finalized-Kept net answers) (λ r found. refl) (length fs) fs this.outcomes
          right_fs in
      let (same_bs, fewer_bs, still_bs) =
        advance_lem (RightBlock net) (λ r. r.block_hash) (λ r block. block.hash)
          (poll_block net answers) (λ request block. full_block block) blocks worth
          (poll_block-Kept net answers) (λ r found. refl) (length bs) bs outs right_bs in
      let (same_ps, fewer_ps, still_ps) =
        advance_lem (λ r. Unit {0}) (λ r. r) (λ r found. r) (poll_proof net answers)
          (λ block_hash found. proof block_hash found) proofs worth
          (λ r right. poll_proof-Kept net answers r) (λ r found. refl) (length ps) ps outs'
          (All-any ps) in
      record {
        same = omega (arith, same_fs, same_bs, same_ps);
        fewer_blocks = fewer_bs;
        fewer_proofs = fewer_ps;
        fewer_finalized = fewer_fs;
        still = (still_bs, still_fs);
      }

  pop_outcome-weigh :
      (outs : List (DownloadData B P)) (this : EngineDownloader B P)
      → this.outcomes ≡ outs
      → weigh_all (pop_outcome outs this).0 + worth_some (pop_outcome outs this).1 ≡ weigh_all this
  unfolding pop_outcome
  pop_outcome-weigh [] this e = omega arith
  pop_outcome-weigh (o ∷ os) this e = rw (e) (omega arith)

  -- However requests are weighed by kind and hash, and whatever peers answer, the requests in
  -- flight and the outcomes that wait weigh before a poll of the downloader what they weigh after
  -- it together with the outcome that it returns, if the downloads in flight hold no header or
  -- block but of the hash that they ask for: no request and no outcome is lost or doubled, and
  -- each outcome has the kind and the hash of its request.
  pub poll-weigh :
      (net : Network B P) (answers : Answers net) (this : EngineDownloader B P)
      → IsRight net this
      → weigh_all (poll net answers this).0 + worth_some (poll net answers this).1 ≡ weigh_all this
  unfolding poll
  poll-weigh net answers this v = by_outcomes this.outcomes refl
    where
      by_outcomes :
          (outs : List (DownloadData B P))
          → this.outcomes ≡ outs
          → weigh_all (poll net answers this).0 + worth_some (poll net answers this).1
            ≡ weigh_all this
      by_outcomes (o ∷ os) e = rw (e, poll) (omega arith)
      by_outcomes [] e = rw (poll_waits net answers this e) (
          pop_outcome-weigh (advance_all net answers this).outcomes (advance_all net answers this)
            refl
          ∙ (advance_all-Advanced net answers this v).same)
