-- ===== src/Download/FullBlock.antt =====
-- crates/engine/src/download/futs.rs: `FetchFullBlockFuture`. Delays and log lines are left out.
pub mod Sound
use zk_ress.Base.{
  ℕ, Bool, true, false, List, [], ◌∷◌, Option, none, some, ◌==◌, if◌then◌else◌, is_some,
}
use zk_ress.Download.{Network, PeerRequestError}
use zk_ress.Env.{Result, ok, err}
use zk_ress.Primitives.{SealedHeader, Block}

-- The flags say whether a request is pending.
pub record FetchFullBlockFuture (B : Type 0) : Type 0 where
  pub block_hash : ℕ
  pub pending_header_request : Bool
  pub pending_body_request : Bool
  pub header : Option SealedHeader
  pub body : Option B

-- How a round of the loop in `poll` ends: it goes on, it returns the block, or it returns `Pending`.
pub data Next (O : Type 0) : Type 0 where
  again : Next O
  ready : O → Next O
  pending : Next O

module _ {B P : Type 0} (net : Network B P) where
  abbrev pub HeaderResponse : Type 0
  HeaderResponse = Result (Option net.RawHeader) PeerRequestError

  abbrev pub BodyResponse : Type 0
  BodyResponse = Result (Option B) PeerRequestError

  unfoldable pub on_header_response :
      HeaderResponse → FetchFullBlockFuture B → FetchFullBlockFuture B
  on_header_response (ok (some raw)) this =
      let header = net.seal_slow raw in
      if header.hash == this.block_hash then record this { header = some header } else this
  on_header_response (ok none) this = this
  on_header_response (err error) this = this

  unfoldable pub on_body_response : BodyResponse → FetchFullBlockFuture B → FetchFullBlockFuture B
  on_body_response (ok (some body)) this = record this { body = some body }
  on_body_response (ok none) this = this
  on_body_response (err error) this = this

  -- A ready header request is answered; without a header it is made again. Beside the state stands
  -- whether the round starts over.
  unfoldable pub take_header :
      HeaderResponse → FetchFullBlockFuture B → FetchFullBlockFuture B × Bool
  unfolding on_header_response
  take_header response this =
      let answered = on_header_response response (record this { pending_header_request = false }) in
      if is_some answered.header
      then (answered, false)
      else (record answered { pending_header_request = true }, true)

  unfoldable pub take_body : BodyResponse → FetchFullBlockFuture B → FetchFullBlockFuture B × Bool
  unfolding on_body_response
  take_body response this =
      let answered = on_body_response response (record this { pending_body_request = false }) in
      if is_some answered.body
      then (answered, false)
      else (record answered { pending_body_request = true }, true)

  unfoldable pub poll_header :
      Option HeaderResponse → FetchFullBlockFuture B → FetchFullBlockFuture B × Bool
  unfolding take_header
  poll_header none this = (this, false)
  poll_header (some response) this =
      if this.pending_header_request then take_header response this else (this, false)

  unfoldable pub poll_body :
      Option BodyResponse → FetchFullBlockFuture B → FetchFullBlockFuture B × Bool
  unfolding take_body
  poll_body none this = (this, false)
  poll_body (some response) this =
      if this.pending_body_request then take_body response this else (this, false)

  -- The end of a round: with both parts at hand the body is checked, and asked for again if it does
  -- not fit the header.
  unfoldable pub assemble :
      Option SealedHeader
      → Option B
      → FetchFullBlockFuture B
      → FetchFullBlockFuture B × Next (Block B)
  assemble none body this = (this, pending)
  assemble (some header) none this = (this, pending)
  assemble (some header) (some body) this =
      if net.body_fits body header
      then (
        record this { header = none; body = none },
        ready (record { header = header; body = body }),
      )
      else (record this { body = none; pending_body_request = true }, again)

  unfoldable pub round_body :
      Option BodyResponse → FetchFullBlockFuture B → FetchFullBlockFuture B × Next (Block B)
  unfolding poll_body assemble
  round_body body_response this =
      let (next, restart) = poll_body body_response this in
      if restart then (next, again) else assemble next.header next.body next

  -- One round of the loop. A request that is not polled in the round has no say in it.
  unfoldable pub round :
      Option HeaderResponse
      → Option BodyResponse
      → FetchFullBlockFuture B
      → FetchFullBlockFuture B × Next (Block B)
  unfolding poll_header round_body
  round header_response body_response this =
      let (next, restart) = poll_header header_response this in
      if restart then (next, again) else round_body body_response next

  -- `poll`, given what each of its rounds finds; `none` is `Pending`.
  unfoldable pub poll :
      List (Option HeaderResponse × Option BodyResponse)
      → FetchFullBlockFuture B
      → FetchFullBlockFuture B × Option (Block B)
  unfolding round
  poll [] this = (this, none)
  poll ((h, b) ∷ responses) this =
      let (next, result) = round h b this in
      let rest = poll responses next in
      elim result [ again ↦ rest | ready block ↦ (next, some block) | pending ↦ (next, none) ]

unfoldable pub new : {B : Type 0} → ℕ → FetchFullBlockFuture B
new block_hash = record {
  block_hash = block_hash;
  pending_header_request = true;
  pending_body_request = true;
  header = none;
  body = none;
}
