-- ===== src/Download/Bodies.antt =====
-- crates/engine/src/download/futs.rs: the second state of `FetchFullBlockRangeFuture`, which downloads
-- the bodies of a range of headers.
pub mod Pairs
use zk_ress.Base.{ℕ, zero, suc, List, [], ◌∷◌, ◌++◌, Option, none, some, if◌then◌else◌, map, length}
use zk_ress.Download.{Network, PeerRequestError}
use zk_ress.Env.{Result, ok, err}
use zk_ress.Primitives.{SealedHeader, Block}

-- `FullBlockRangeBodiesDownloadState`, with the hashes of the request that is pending.
pub record BodiesDownloadState (B : Type 0) : Type 0 where
  pub headers : List SealedHeader
  pub requested : List ℕ
  pub bodies : List B

-- `skip`
unfoldable pub skip {ℓ} : {A : Type ℓ} → ℕ → List A → List A
skip zero xs = xs
skip (suc n) [] = []
skip (suc n) (x ∷ xs) = skip n xs

-- `zip` and `from_sealed_parts`
unfoldable pub zip_blocks : {B : Type 0} → List SealedHeader → List B → List (Block B)
zip_blocks [] bodies = []
zip_blocks (h ∷ hs) [] = []
zip_blocks (h ∷ hs) (b ∷ bs) = record { header = h; body = b } ∷ zip_blocks hs bs

module _ {B : Type 0} where
  unfoldable pub missing : BodiesDownloadState B → List ℕ
  unfolding skip
  missing this = map (λ h. h.hash) (skip (length this.bodies) this.headers)

  unfoldable pub take_blocks : BodiesDownloadState B → List (Block B)
  unfolding zip_blocks
  take_blocks this = zip_blocks this.headers this.bodies

  -- The state once the headers are there.
  unfoldable pub start : List SealedHeader → BodiesDownloadState B
  start headers = record { headers = headers; requested = map (λ h. h.hash) headers; bodies = [] }

  -- `state.fut = request_bodies(state.missing())`
  unfoldable pub request_missing : BodiesDownloadState B → BodiesDownloadState B
  unfolding missing
  request_missing this = record this { requested = missing this }

module _ {B P : Type 0} (net : Network B P) where
  -- The `for` loop over the headers that still lack a body. Its `continue` behind a body that does not
  -- fit goes on with the next header and the next body.
  unfoldable pub match_bodies :
      List SealedHeader → List B → BodiesDownloadState B → BodiesDownloadState B
  unfolding request_missing
  match_bodies [] pending this = this
  match_bodies (h ∷ hs) [] this = match_bodies hs [] this
  match_bodies (h ∷ hs) (body ∷ pending) this = match_bodies hs pending (
      if net.body_fits body h
      then record this { bodies = this.bodies ++ body ∷ [] }
      else request_missing this)

  -- What follows the loop: the blocks, or a request for what is missing.
  unfoldable pub finish : BodiesDownloadState B → BodiesDownloadState B × Option (List (Block B))
  unfolding missing request_missing take_blocks
  finish this = elim (missing this) [
    | [] ↦ (this, some (take_blocks this))
    | _ ∷ _ ↦ (request_missing this, none)
  ]

  -- One round of `poll` in this state, on the answer that is ready; `none` goes on.
  unfoldable pub on_bodies_response :
      Result (List B) PeerRequestError
      → BodiesDownloadState B
      → BodiesDownloadState B × Option (List (Block B))
  unfolding skip match_bodies finish request_missing
  on_bodies_response (err error) this = (request_missing this, none)
  on_bodies_response (ok []) this = (request_missing this, none)
  on_bodies_response (ok (body ∷ pending)) this =
      finish (match_bodies (skip (length this.bodies) this.headers) (body ∷ pending) this)

  unfoldable pub poll :
      List (Result (List B) PeerRequestError)
      → BodiesDownloadState B
      → BodiesDownloadState B × Option (List (Block B))
  unfolding on_bodies_response
  poll [] this = (this, none)
  poll (response ∷ responses) this =
      let (next, result) = on_bodies_response response this in
      let rest = poll responses next in
      elim result [ none ↦ rest | some blocks ↦ (next, some blocks) ]
