-- ===== src/Download/Downloader.antt =====
-- crates/engine/src/download/mod.rs: `EngineDownloader`. Metrics and elapsed times are left out.
pub mod Swaps
pub mod Futures
pub mod Requests
pub mod Calls
pub mod Times
pub mod Once
pub mod Held
use zk_ress.Base.{
  ℕ, zero, suc, Bool, false, ◌||◌, List, [], ◌∷◌, ◌++◌, Option, none, some, ◌==◌, if◌then◌else◌,
  length,
}
use zk_ress.Download.{Network, PeerRequestError}
use zk_ress.Download.Ancestors
use zk_ress.Download.Ancestors.{FetchFullBlockWithAncestorsFuture}
use zk_ress.Download.FullBlock
use zk_ress.Download.FullBlock.{FetchFullBlockFuture}
use zk_ress.Download.Proof as Proof
use zk_ress.Env.{Result}
use zk_ress.Primitives.{SealedHeader, Block}

-- `DownloadData`
pub data DownloadData (B P : Type 0) : Type 0 where
  full_block : Block B → DownloadData B P
  proof : ℕ → P → DownloadData B P
  finalized_block : Block B → List SealedHeader → DownloadData B P

-- A proof request is known by its block hash; nothing else of it changes.
pub record EngineDownloader (B P : Type 0) : Type 0 where
  pub inflight_full_block_requests : List (FetchFullBlockFuture B)
  pub inflight_proof_requests : List ℕ
  pub inflight_finalized_block_requests : List (FetchFullBlockWithAncestorsFuture B)
  pub outcomes : List (DownloadData B P)

-- `iter().any(|req| req.block_hash() == block_hash)`
unfoldable pub any_for {ℓ} : {F : Type ℓ} → (F → ℕ) → ℕ → List F → Bool
any_for hash_of h [] = false
any_for hash_of h (r ∷ rs) = hash_of r == h || any_for hash_of h rs

-- `push` of a request, unless one for the same hash is in flight.
unfoldable pub push_new {ℓ} : {F : Type ℓ} → (F → ℕ) → F → List F → List F
unfolding any_for
push_new hash_of r rs = if any_for hash_of (hash_of r) rs then rs else rs ++ r ∷ []

-- `Vec::swap_remove` at an index, by the entry there, the last one, and all but the last.
abbrev pub init {ℓ} : {F : Type ℓ} → List F → List F
init [] = []
init (x ∷ []) = []
init (x ∷ y ∷ xs) = x ∷ init (y ∷ xs)

abbrev pub last_or {ℓ} : {F : Type ℓ} → F → List F → F
last_or d [] = d
last_or d (x ∷ xs) = last_or x xs

abbrev pub get_elem? {ℓ} : {F : Type ℓ} → List F → ℕ → Option F
get_elem? [] i = none
get_elem? (x ∷ xs) zero = some x
get_elem? (x ∷ xs) (suc i) = get_elem? xs i

abbrev pub set {ℓ} : {F : Type ℓ} → List F → ℕ → F → List F
set [] i v = []
set (x ∷ xs) zero v = v ∷ xs
set (x ∷ xs) (suc i) v = x ∷ set xs i v

unfoldable pub swap_remove {ℓ} : {F : Type ℓ} → F → ℕ → List F → List F
swap_remove found i rs = set (init rs) i (last_or found rs)

-- A loop of `poll` over one kind of requests, from the last index down. `poll_one` polls a request,
-- and `data_of` makes the data of an outcome from the request and what it returned.
unfoldable pub advance {ℓ κ μ} :
    {F : Type ℓ} {R : Type κ} {O : Type μ}
    → (F → F × Option R)
    → (F → R → O)
    → ℕ
    → List F
    → List O
    → List F × List O
unfolding swap_remove
advance poll_one data_of zero rs outs = (rs, outs)
advance poll_one data_of (suc idx) rs outs = elim (get_elem? rs idx) [
  | none ↦ (rs, outs)
  | some request ↦
      let (polled, result) = poll_one request in
      elim result [
        | some found ↦
            advance poll_one data_of idx (swap_remove request idx rs)
              (outs ++ data_of polled found ∷ [])
        | none ↦ advance poll_one data_of idx (swap_remove request idx rs ++ polled ∷ []) outs
      ]
]

module _ {B P : Type 0} where
  unfoldable pub new : EngineDownloader B P
  new = record {
    inflight_full_block_requests = [];
    inflight_proof_requests = [];
    inflight_finalized_block_requests = [];
    outcomes = [];
  }

  unfoldable pub download_full_block : ℕ → EngineDownloader B P → EngineDownloader B P
  unfolding push_new FullBlock.new
  download_full_block block_hash this = record this {
    inflight_full_block_requests =
        push_new (λ r. r.block_hash) (FullBlock.new block_hash) this.inflight_full_block_requests;
  }

  unfoldable pub download_proof : ℕ → EngineDownloader B P → EngineDownloader B P
  unfolding push_new
  download_proof block_hash this = record this {
    inflight_proof_requests = push_new (λ r. r) block_hash this.inflight_proof_requests;
  }

  unfoldable pub download_finalized_with_ancestors : ℕ → EngineDownloader B P → EngineDownloader B P
  unfolding push_new Ancestors.new
  download_finalized_with_ancestors block_hash this = record this {
    inflight_finalized_block_requests =
        push_new (λ r. r.block_hash) (Ancestors.new block_hash 256)
          this.inflight_finalized_block_requests;
  }

  unfoldable pub pop_outcome :
      List (DownloadData B P)
      → EngineDownloader B P
      → EngineDownloader B P × Option (DownloadData B P)
  pop_outcome [] this = (this, none)
  pop_outcome (o ∷ os) this = (record this { outcomes = os }, some o)

module _ {B P : Type 0} (net : Network B P) where
  -- What peers answer to the requests in one call of `poll`.
  pub record Answers : Type 0 where
    pub to_finalized :
        FetchFullBlockWithAncestorsFuture B
        → List (Option (FullBlock.HeaderResponse net) × Option (FullBlock.BodyResponse net))
          × List (Result (List net.RawHeader) PeerRequestError)
    pub to_blocks :
        FetchFullBlockFuture B
        → List (Option (FullBlock.HeaderResponse net) × Option (FullBlock.BodyResponse net))
    pub to_proofs : ℕ → List (Result net.Bytes PeerRequestError)

  -- `poll_unpin` of a request of each kind.
  unfoldable pub poll_finalized :
      Answers
      → FetchFullBlockWithAncestorsFuture B
      → FetchFullBlockWithAncestorsFuture B × Option (Block B × List SealedHeader)
  unfolding Ancestors.poll
  poll_finalized answers request =
      let (responses, ancestors) = answers.to_finalized request in
      Ancestors.poll net responses ancestors request

  unfoldable pub poll_block :
      Answers → FetchFullBlockFuture B → FetchFullBlockFuture B × Option (Block B)
  unfolding FullBlock.poll
  poll_block answers request = FullBlock.poll net (answers.to_blocks request) request

  unfoldable pub poll_proof : Answers → ℕ → ℕ × Option P
  unfolding Proof.poll
  poll_proof answers block_hash = (block_hash, Proof.poll net (answers.to_proofs block_hash))

  -- The three loops of `poll`, behind the test for an outcome that waits.
  unfoldable pub advance_all : Answers → EngineDownloader B P → EngineDownloader B P
  unfolding advance poll_finalized poll_block poll_proof
  advance_all answers this =
      let (fs, outs) =
        advance (poll_finalized answers) (λ request found. finalized_block found.0 found.1)
          (length this.inflight_finalized_block_requests) this.inflight_finalized_block_requests
          this.outcomes in
      let (bs, outs') =
        advance (poll_block answers) (λ request block. full_block block)
          (length this.inflight_full_block_requests) this.inflight_full_block_requests outs in
      let (ps, outs'') =
        advance (poll_proof answers) (λ block_hash found. proof block_hash found)
          (length this.inflight_proof_requests) this.inflight_proof_requests outs' in
      record {
        inflight_full_block_requests = bs;
        inflight_proof_requests = ps;
        inflight_finalized_block_requests = fs;
        outcomes = outs'';
      }

  -- `poll`; `none` is `Pending`.
  unfoldable pub poll :
      Answers → EngineDownloader B P → EngineDownloader B P × Option (DownloadData B P)
  unfolding advance_all pop_outcome
  poll answers this = elim this.outcomes [
    | o ∷ os ↦ (record this { outcomes = os }, some o)
    | [] ↦ let advanced = advance_all answers this in pop_outcome advanced.outcomes advanced
  ]
