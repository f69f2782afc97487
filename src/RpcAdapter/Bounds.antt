-- ===== src/RpcAdapter/Bounds.antt =====
-- crates/testing/src/rpc_adapter.rs: how much the adapter answers, and in which order.
use zk_ress.Base.{
  ℕ, zero, suc, ◌+◌, ◌-◌, ◌≤◌, ◌≡◌, refl, sym, subst, List, [], ◌∷◌, Option, none, some,
  Option-cases, inl, inr, ltb, leb, Bool-cases, arith, length, if◌then◌else◌, map,
}
use zk_ress.Download.Headers.{GetHeaders}
use zk_ress.Network.Handle.{ZkRessPeerRequest, get_headers, get_block_bodies, get_proof}
use zk_ress.RpcAdapter.{
  RpcNode, by_hash, by_number, hashes, full, block, queue, take_headers, min, on_headers_request,
  take_bodies, on_block_bodies_request, Response, respond,
}

length-map {ℓ κ} :
    {A : Type ℓ} {B : Type κ} (f : A → B) (xs : List A) → length (map f xs) ≡ length xs
length-map f [] = refl
length-map f (x ∷ xs) = omega (arith, length-map f xs)

module _ (node : RpcNode) where
  queue-length :
      (first count : ℕ) (futs : List (Option node.RpcBlock))
      → length (queue node first count futs) ≡ count + length futs
  unfolding queue
  queue-length first zero futs = omega arith
  queue-length first (suc count) futs =
      omega (arith, queue-length (first + 1) count (block node (by_number first) hashes ∷ futs))

  take_headers-length :
      (futs : List (Option node.RpcBlock)) (total : ℕ)
      → length (take_headers node futs total) ≤ length futs
  unfolding take_headers
  take_headers-length [] total = omega arith
  take_headers-length (none ∷ futs) total = omega arith
  take_headers-length (some next ∷ futs) total =
      ground
        (arith, take_headers-length futs (total + node.header_length (node.into_consensus next)))

  -- A response to a request for headers has at most one header more than `MAX_HEADERS_SERVE`, and not
  -- more than the limit of the request, but for a limit of 0, which counts as 1.
  on_headers_request-length :
      (request : GetHeaders)
      → (length (on_headers_request node request) ≤ node.max_headers_serve + 1)
        × (length (on_headers_request node request)
            ≤ (if leb request.limit 1 then 1 else request.limit))
  unfolding on_headers_request
  on_headers_request-length request =
      elim (Option-cases (block node (by_hash request.start_hash) hashes)) [
        | inl missing ↦ rw (missing, on_headers_request) (ground arith)
        | inr (found, known) ↦
            let start = node.header_number (node.into_consensus found) in
            let end = start - min node (request.limit - 1) node.max_headers_serve in
            rw (known, on_headers_request)
              (ground (
                arith,
                queue-length end (start - end) [],
                take_headers-length (queue node end (start - end) [])
                    (node.header_length (node.into_consensus found)),
              ))
      ]

  take_bodies-length :
      (futs : List (Option node.RpcBlock)) (count total : ℕ)
      → suc count ≤ node.max_bodies_serve
      → (count + length (take_bodies node futs count total) ≤ node.max_bodies_serve)
        × (length (take_bodies node futs count total) ≤ length futs)
  unfolding take_bodies
  take_bodies-length [] count total some_left = omega arith
  take_bodies-length (none ∷ futs) count total some_left = omega arith
  take_bodies-length (some next ∷ futs) count total some_left =
      let total' = total + node.body_length (node.into_body next) in
      elim (Bool-cases (leb node.max_bodies_serve (suc count))) [
        | inl filled ↦ rw (filled) (omega arith)
        | inr more ↦
            let (fits, fewer) = take_bodies-length futs (suc count) total' (ground arith) in
            elim (Bool-cases (ltb node.soft_response_limit total')) [
              | inl large ↦ rw (more, large) (omega arith)
              | inr small ↦ rw (more, small) (omega (arith, fits, fewer))
            ]
      ]

  -- A response to a request for bodies has no more than `MAX_BODIES_SERVE`, and no more than are asked.
  on_block_bodies_request-length :
      (request : List ℕ)
      → 1 ≤ node.max_bodies_serve
      → (length (on_block_bodies_request node request) ≤ node.max_bodies_serve)
        × (length (on_block_bodies_request node request) ≤ length request)
  unfolding on_block_bodies_request
  on_block_bodies_request-length request some_served =
      let futs = map (λ block_hash. block node (by_hash block_hash) full) request in
      omega (
        arith,
        take_bodies-length futs 0 0 some_served,
        length-map (λ block_hash. block node (by_hash block_hash) full) request,
      )

  -- How large a response may be.
  abbrev pub Limits : ZkRessPeerRequest → Response node → Type 0
  Limits (get_headers request) (Response.headers found) =
      (length found ≤ node.max_headers_serve + 1)
      × (length found ≤ (if leb request.limit 1 then 1 else request.limit))
  Limits (get_block_bodies request) (Response.bodies found) =
      (length found ≤ node.max_bodies_serve) × (length found ≤ length request)
  Limits (get_proof block_hash) (Response.witness found) = Unit
  Limits request response = ⊥

  -- If MAX_BODIES_SERVE is at least 1, a response of the RPC adapter to a request for headers has
  -- at most one header more than MAX_HEADERS_SERVE and no more than the limit of the request,
  -- where a limit of 0 counts as 1, and a response to a request for bodies has no more than
  -- MAX_BODIES_SERVE and no more than are asked for.
  pub respond-Limits :
      (request : ZkRessPeerRequest)
      → 1 ≤ node.max_bodies_serve
      → Limits request (respond node request)
  unfolding respond
  respond-Limits (get_headers request) some_served = on_headers_request-length request
  respond-Limits (get_block_bodies request) some_served =
      on_block_bodies_request-length request some_served
  respond-Limits (get_proof block_hash) some_served = tt

  -- Below a number, the number falls by one from header to header.
  abbrev pub Falls : ℕ → List node.Header → Type 0
  Falls number [] = Unit
  Falls number (header ∷ headers) =
      (suc (node.header_number header) ≡ number) × Falls (node.header_number header) headers

  -- Answers to the numbers below a number, the highest first.
  abbrev IsQueue : ℕ → List (Option node.RpcBlock) → Type 0
  IsQueue number [] = Unit
  IsQueue number (answer ∷ futs) =
      (n : ℕ) × (suc n ≡ number) × (answer ≡ block node (by_number n) hashes) × IsQueue n futs

  queue-IsQueue :
      (first count : ℕ) (futs : List (Option node.RpcBlock))
      → IsQueue first futs
      → IsQueue (first + count) (queue node first count futs)
  unfolding queue
  queue-IsQueue first zero futs v = subst (λ n. IsQueue n futs) (omega arith) v
  queue-IsQueue first (suc count) futs v =
      let asked = block node (by_number first) hashes ∷ futs in
      subst (λ n. IsQueue n (queue node (first + 1) count asked)) (omega arith)
        (queue-IsQueue (first + 1) count asked (first, omega arith, refl, v))

  -- The node answers a number with a block of that number.
  abbrev pub IsNumbered : Type 0
  IsNumbered =
      (number : ℕ) (found : node.RpcBlock)
      → block node (by_number number) hashes ≡ some found
      → node.header_number (node.into_consensus found) ≡ number

  take_headers-Falls :
      IsNumbered
      → (number : ℕ) (futs : List (Option node.RpcBlock)) (total : ℕ) → IsQueue number futs
      → Falls number (take_headers node futs total)
  unfolding take_headers
  take_headers-Falls numbered number [] total v = tt
  take_headers-Falls numbered number (none ∷ futs) total v = tt
  take_headers-Falls numbered number (some next ∷ futs) total (n, above, answered, v) =
      let total' = total + node.header_length (node.into_consensus next) in
      let same = numbered n next (sym answered) in
      (
        ground (arith, same, above),
        elim (Bool-cases (ltb node.soft_response_limit total')) [
          | inl large ↦ rw (large) tt
          | inr small ↦ rw (small) (
              subst (λ k. Falls k (take_headers node futs total')) (sym same)
                (take_headers-Falls numbered n futs total' v))
        ],
      )

  -- If the node answers a number with a block of that number and knows the hash that is asked for,
  -- a response of the RPC adapter to a request for headers begins with the header of that hash,
  -- and each further header has a number that is less by exactly one than that of the header
  -- before it.
  pub on_headers_request-Falls :
      (request : GetHeaders) (found : node.RpcBlock)
      → IsNumbered
      → block node (by_hash request.start_hash) hashes ≡ some found
      → (rest : List node.Header) × (on_headers_request node request
          ≡ node.into_consensus found ∷ rest)
        × Falls (node.header_number (node.into_consensus found)) rest
  unfolding on_headers_request
  on_headers_request-Falls request found numbered known =
      let header = node.into_consensus found in
      let start = node.header_number header in
      let end = start - min node (request.limit - 1) node.max_headers_serve in
      let futs = queue node end (start - end) [] in
      let falls =
        take_headers-Falls numbered start futs (node.header_length header)
          (subst (λ n. IsQueue n futs) (omega arith) (queue-IsQueue end (start - end) [] tt)) in
      elim (Bool-cases (leb request.limit 1)) [
        | inl one ↦ rw (known, on_headers_request, one) ([], refl, tt)
        | inr more ↦ rw (known, on_headers_request, more) (_, refl, falls)
      ]
