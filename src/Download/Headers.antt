-- ===== src/Download/Headers.antt =====
-- crates/engine/src/download/futs.rs: `FetchHeadersRangeFuture`.
pub mod Range
use zk_ress.Base.{ℕ, List, [], ◌∷◌, Option, none, some, ◌==◌, ltb, if◌then◌else◌, map, length}
use zk_ress.Download.{Network, PeerRequestError}
use zk_ress.Env.{Result, ok, err}
use zk_ress.Primitives.{SealedHeader}
use mathlib.Core.List.{reverse}

-- `GetHeaders`
pub record GetHeaders : Type 0 where
  pub start_hash : ℕ
  pub limit : ℕ

-- What `on_response` returns; an empty answer to a request of no headers makes it panic.
pub data RangeResponse : Type 0 where
  retry panics : RangeResponse
  accept : List SealedHeader → RangeResponse

module _ {B P : Type 0} (net : Network B P) where
  -- The checks on an answer that is long enough; the headers fall.
  unfoldable pub check_range : GetHeaders → List SealedHeader → RangeResponse
  check_range request [] = panics
  check_range request (first ∷ falling) =
      if first.hash == request.start_hash
      then (if net.header_range_fits (reverse (first ∷ falling))
          then accept (first ∷ falling)
          else retry)
      else retry

  unfoldable pub on_response :
      GetHeaders → Result (List net.RawHeader) PeerRequestError → RangeResponse
  unfolding check_range
  on_response request (err error) = retry
  on_response request (ok headers) =
      if ltb (length headers) request.limit
      then retry
      else check_range request (map net.seal_slow headers)

  -- `poll`, given the answers that become ready in it, each to a new request; `none` is `Pending`.
  unfoldable pub poll :
      GetHeaders → List (Result (List net.RawHeader) PeerRequestError) → Option RangeResponse
  unfolding on_response
  poll request [] = none
  poll request (response ∷ responses) =
      let rest = poll request responses in
      elim (on_response request response) [
        | retry ↦ rest
        | panics ↦ some panics
        | accept headers ↦ some (accept headers)
      ]
