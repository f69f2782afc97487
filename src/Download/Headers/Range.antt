-- ===== src/Download/Headers/Range.antt =====
-- crates/engine/src/download/futs.rs: what `FetchHeadersRangeFuture` returns.
use zk_ress.Base.{
  ◌≤◌, ◌≡◌, refl, true, List, [], ◌∷◌, Option, none, some, arith, ◌==◌, ltb, Bool-cases, inl, inr,
  map, length,
}
use mathlib.Core.List.{reverse}
use zk_ress.Download.{Network, PeerRequestError}
use zk_ress.Download.Headers.{
  GetHeaders, RangeResponse, retry, panics, accept, check_range, on_response, poll,
}
use zk_ress.Env.{Result, ok, err}
use zk_ress.Primitives.{SealedHeader}

length-map : {A B : Type 0} (f : A → B) (xs : List A) → length (map f xs) ≡ length xs
length-map f [] = refl
length-map f (x ∷ xs) = omega (arith, length-map f xs)

module _ {B P : Type 0} (net : Network B P) (request : GetHeaders) where
  -- The headers begin with the one asked for, are as many as asked for or more, and rise to it as a
  -- range that the consensus accepts.
  abbrev pub IsRange : List SealedHeader → Type 0
  IsRange [] = ⊥
  IsRange (first ∷ falling) =
      (first.hash ≡ request.start_hash)
      × (request.limit ≤ length (first ∷ falling))
      × (net.header_range_fits (reverse (first ∷ falling)) ≡ true)

  abbrev pub IsAnswer : Option RangeResponse → Type 0
  IsAnswer none = Unit
  IsAnswer (some retry) = ⊥
  IsAnswer (some panics) = request.limit ≡ 0
  IsAnswer (some (accept headers)) = IsRange headers

  abbrev pub IsResponse : RangeResponse → Type 0
  IsResponse retry = Unit
  IsResponse panics = request.limit ≡ 0
  IsResponse (accept headers) = IsRange headers

  check_range-IsResponse :
      (headers : List SealedHeader)
      → request.limit ≤ length headers
      → IsResponse (check_range net request headers)
  unfolding check_range
  check_range-IsResponse [] enough = omega arith
  check_range-IsResponse (first ∷ falling) enough =
      elim (Bool-cases (first.hash == request.start_hash)) [
        | inr other ↦ rw (other, check_range) tt
        | inl same ↦ elim (Bool-cases (net.header_range_fits (reverse (first ∷ falling)))) [
          | inl fits ↦ rw (same, check_range, fits) (ground arith, enough, fits)
          | inr unfit ↦ rw (same, check_range, unfit) tt
        ]
      ]

  on_response-IsResponse :
      (response : Result (List net.RawHeader) PeerRequestError)
      → IsResponse (on_response net request response)
  unfolding on_response
  on_response-IsResponse (err error) = tt
  on_response-IsResponse (ok headers) = elim (Bool-cases (ltb (length headers) request.limit)) [
    | inl short ↦ rw (short, on_response) tt
    | inr enough ↦
        rw (enough, on_response)
          (check_range-IsResponse (map net.seal_slow headers)
            (ground (arith, length-map net.seal_slow headers)))
  ]

  poll_step :
      (r : RangeResponse) (later : Option RangeResponse)
      → IsResponse r
      → IsAnswer later
      → IsAnswer
          (elim r [ retry ↦ later | panics ↦ some panics | accept headers ↦ some (accept headers) ])
  poll_step retry later here after = after
  poll_step panics later here after = here
  poll_step (accept headers) later here after = here

  -- Whatever peers answer, a download of a range of headers returns only headers that begin with
  -- the hash asked for, are at least as many as asked for, and pass, in rising order, the range
  -- check of the consensus; it panics only if no headers were asked for.
  pub poll-IsRange :
      (responses : List (Result (List net.RawHeader) PeerRequestError))
      → IsAnswer (poll net request responses)
  unfolding poll
  poll-IsRange [] = tt
  poll-IsRange (response ∷ responses) =
      poll_step (on_response net request response) (poll net request responses)
        (on_response-IsResponse response) (poll-IsRange responses)
