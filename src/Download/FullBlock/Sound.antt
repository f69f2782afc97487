-- ===== src/Download/FullBlock/Sound.antt =====
-- crates/engine/src/download/futs.rs: what `FetchFullBlockFuture` returns.
use zk_ress.Base.{
  ℕ, ◌≡◌, refl, true, false, List, [], ◌∷◌, Option, none, some, arith, ◌==◌, Bool-cases, inl, inr,
  is_some, subst, ◌∙◌,
}
use zk_ress.Download.{Network}
use zk_ress.Download.FullBlock.{
  FetchFullBlockFuture, Next, again, ready, pending, HeaderResponse, BodyResponse,
  on_header_response, on_body_response, take_header, take_body, poll_header, poll_body, assemble,
  round_body, round, poll, new,
}
use zk_ress.Env.{ok, err}
use zk_ress.Primitives.{SealedHeader, Block}

module _ {B P : Type 0} (net : Network B P) where
  -- A header that is kept has the hash that is asked for.
  abbrev pub HasHash : ℕ → Option SealedHeader → Type 0
  HasHash hash none = Unit
  HasHash hash (some header) = header.hash ≡ hash

  -- What is returned has that hash, and its body fits its header.
  abbrev pub IsAnswer : ℕ → Option (Block B) → Type 0
  IsAnswer hash none = Unit
  IsAnswer hash (some block) = (block.hash ≡ hash) × (net.body_fits block.body block.header ≡ true)

  abbrev pub answer : Next (Block B) → Option (Block B)
  answer again = none
  answer (ready block) = some block
  answer pending = none

  -- The future asks for the hash, and a header that it has is right.
  abbrev pub IsFor : ℕ → FetchFullBlockFuture B → Type 0
  IsFor hash this = (this.block_hash ≡ hash) × HasHash hash this.header

  on_header_response-IsFor :
      (hash : ℕ) (response : HeaderResponse net) (this : FetchFullBlockFuture B)
      → IsFor hash this
      → IsFor hash (on_header_response net response this)
  unfolding on_header_response
  on_header_response-IsFor hash (ok (some raw)) this v =
      elim (Bool-cases ((net.seal_slow raw).hash == this.block_hash)) [
        | inl same ↦ rw (same, on_header_response) (v.0, ground (arith, v.0))
        | inr other ↦ rw (other, on_header_response) v
      ]
  on_header_response-IsFor hash (ok none) this v = v
  on_header_response-IsFor hash (err error) this v = v

  poll_header-IsFor :
      (hash : ℕ) (response : Option (HeaderResponse net)) (this : FetchFullBlockFuture B)
      → IsFor hash this
      → IsFor hash (poll_header net response this).0
  unfolding poll_header take_header
  poll_header-IsFor hash none this v = v
  poll_header-IsFor hash (some response) this v = elim (Bool-cases this.pending_header_request) [
    | inr idle ↦ rw (idle, poll_header) v
    | inl asked ↦
        let asking = record this { pending_header_request = false } in
        let answered = on_header_response net response asking in
        let w = on_header_response-IsFor hash response asking v in
        elim (Bool-cases (is_some answered.header)) [
          | inl got ↦ rw (asked, poll_header, got, take_header) w
          | inr without ↦ rw (asked, poll_header, without, take_header) w
        ]
  ]

  poll_body_keeps :
      (response : Option (BodyResponse net)) (this : FetchFullBlockFuture B)
      → ((poll_body net response this).0.block_hash ≡ this.block_hash)
        × ((poll_body net response this).0.header ≡ this.header)
  unfolding poll_body take_body on_body_response
  poll_body_keeps none this = (refl, refl)
  poll_body_keeps (some (ok (some body))) this = (ground arith, ground arith)
  poll_body_keeps (some (ok none)) this = (ground arith, ground arith)
  poll_body_keeps (some (err error)) this = (ground arith, ground arith)

  poll_body-IsFor :
      (hash : ℕ) (response : Option (BodyResponse net)) (this : FetchFullBlockFuture B)
      → IsFor hash this
      → IsFor hash (poll_body net response this).0
  poll_body-IsFor hash response this (same, v) =
      let (same_hash, same_header) = poll_body_keeps response this in
      (same_hash ∙ same, rw (same_header) v)

  -- What a step leaves and what it returns.
  abbrev pub Steps : ℕ → FetchFullBlockFuture B × Next (Block B) → Type 0
  Steps hash after = IsFor hash after.0 × IsAnswer hash (answer after.1)

  assemble-Steps :
      (hash : ℕ) (header : Option SealedHeader) (body : Option B) (this : FetchFullBlockFuture B)
      → HasHash hash header
      → IsFor hash this
      → Steps hash (assemble net header body this)
  unfolding assemble
  assemble-Steps hash none body this v w = (w, tt)
  assemble-Steps hash (some header) none this v w = (w, tt)
  assemble-Steps hash (some header) (some body) this v w =
      elim (Bool-cases (net.body_fits body header)) [
        | inl fits ↦ rw (fits, assemble) ((w.0, tt), (v, fits))
        | inr other ↦ rw (other, assemble) (w, tt)
      ]

  round_body-Steps :
      (hash : ℕ) (response : Option (BodyResponse net)) (this : FetchFullBlockFuture B)
      → IsFor hash this
      → Steps hash (round_body net response this)
  unfolding round_body
  round_body-Steps hash response this v =
      let next = (poll_body net response this).0 in
      let w = poll_body-IsFor hash response this v in
      elim (Bool-cases (poll_body net response this).1) [
        | inl restarts ↦ rw (restarts, round_body) (w, tt)
        | inr goes ↦ rw (goes, round_body) (assemble-Steps hash next.header next.body next w.1 w)
      ]

  round-Steps :
      (hash : ℕ) (header_response : Option (HeaderResponse net))
      (body_response : Option (BodyResponse net)) (this : FetchFullBlockFuture B)
      → IsFor hash this
      → Steps hash (round net header_response body_response this)
  unfolding round
  round-Steps hash header_response body_response this v =
      let next = (poll_header net header_response this).0 in
      let w = poll_header-IsFor hash header_response this v in
      elim (Bool-cases (poll_header net header_response this).1) [
        | inl restarts ↦ rw (restarts, round) (w, tt)
        | inr goes ↦ rw (goes, round) (round_body-Steps hash body_response next w)
      ]

  pub poll-IsAnswer :
      (hash : ℕ) (responses : List (Option (HeaderResponse net) × Option (BodyResponse net)))
      (this : FetchFullBlockFuture B)
      → IsFor hash this
      → IsFor hash (poll net responses this).0 × IsAnswer hash (poll net responses this).1
  unfolding poll
  poll-IsAnswer hash [] this v = (v, tt)
  poll-IsAnswer hash ((h, b) ∷ responses) this v =
      let (w, answered) = round-Steps hash h b this v in
      let next = (round net h b this).0 in
      let more = poll-IsAnswer hash responses next w in
      by_next w more (round net h b this).1 answered refl
    where
      by_next :
          IsFor hash (round net h b this).0
          → IsFor hash (poll net responses (round net h b this).0).0
            × IsAnswer hash (poll net responses (round net h b this).0).1
          → (result : Next (Block B)) → IsAnswer hash (answer result)
          → (round net h b this).1 ≡ result
          → IsFor hash (poll net ((h, b) ∷ responses) this).0
            × IsAnswer hash (poll net ((h, b) ∷ responses) this).1
      by_next w more again answered e = rw (e, poll) more
      by_next w more (ready block) answered e = rw (e, poll) (w, answered)
      by_next w more pending answered e = rw (e, poll) (w, answered)

  abbrev pub Responses : Type 0
  Responses = List (Option (HeaderResponse net) × Option (BodyResponse net))

  -- The calls of `poll` up to the first that returns a block, each on the state that the last one left.
  abbrev pub run : List Responses → FetchFullBlockFuture B → Option (Block B)
  run [] this = none
  run (responses ∷ later) this =
      let (next, result) = poll net responses this in
      let rest = run later next in elim result [ none ↦ rest | some block ↦ some block ]

  run-IsAnswer :
      (hash : ℕ) (polls : List Responses) (this : FetchFullBlockFuture B)
      → IsFor hash this
      → IsAnswer hash (run polls this)
  run-IsAnswer hash [] this v = tt
  run-IsAnswer hash (responses ∷ later) this v =
      let (w, answered) = poll-IsAnswer hash responses this v in
      by_result (poll net responses this).1 answered
        (run-IsAnswer hash later (poll net responses this).0 w)
    where
      by_result :
          (result : Option (Block B))
          → IsAnswer hash result
          → IsAnswer hash (run later (poll net responses this).0)
          → IsAnswer hash (elim result [
            | none ↦ run later (poll net responses this).0
            | some block ↦ some block
          ])
      by_result none answered rest = rest
      by_result (some block) answered rest = answered

  -- Whatever peers answer, over any number of polls, each of which goes on from the state that the
  -- last one left, a new download of a full block returns only a block that has the hash asked for
  -- and whose body fits its header.
  pub run_new-IsAnswer :
      (hash : ℕ) (polls : List Responses) (block : Block B)
      → run polls (new hash) ≡ some block
      → (block.hash ≡ hash) × (net.body_fits block.body block.header ≡ true)
  unfolding new
  run_new-IsAnswer hash polls block e =
      subst (IsAnswer hash) e (run-IsAnswer hash polls (new hash) (refl, tt))
