-- ===== src/RpcAdapter.antt =====
-- crates/testing/src/rpc_adapter.rs: `RpcNetworkAdapter`, which answers peer requests from a node's RPC
-- interface. What the node answers is a parameter; within one request the same question has the
-- same answer. The connection, the tasks and the log lines are left out.
pub mod Bounds
use zk_ress.Base.{
  ℕ, zero, suc, ◌+◌, ◌-◌, ◌≤◌, List, [], ◌∷◌, ◌++◌, Option, none, some, ltb, leb, ◌||◌,
  if◌then◌else◌, map_option, unwrap_or, length, map,
}
use zk_ress.Env.{Result, ok, err}
use zk_ress.Download.Headers.{GetHeaders}
use zk_ress.Network.Handle.{ZkRessPeerRequest, get_headers, get_block_bodies, get_proof}

pub data BlockId : Type 0 where
  by_hash by_number : ℕ → BlockId

-- `BlockTransactionsKind`
pub data TransactionsKind : Type 0 where
  hashes full : TransactionsKind

-- The node behind the RPC interface, its data and their encodings. The limits are reth's
-- `MAX_HEADERS_SERVE`, `MAX_BODIES_SERVE` and `SOFT_RESPONSE_LIMIT`.
pub record RpcNode : Type 1 where
  pub RpcBlock : Type 0
  pub RpcError : Type 0
  pub get_block : BlockId → TransactionsKind → Result (Option RpcBlock) RpcError
  pub Header : Type 0
  pub into_consensus : RpcBlock → Header
  pub header_number : Header → ℕ
  pub header_length : Header → ℕ
  pub Body : Type 0
  pub into_body : RpcBlock → Body
  pub body_length : Body → ℕ
  -- `debug_executionWitness` at a number, encoded.
  pub execution_witness : ℕ → Result (List ℕ) RpcError
  pub max_headers_serve : ℕ
  pub max_bodies_serve : ℕ
  pub soft_response_limit : ℕ

module _ (node : RpcNode) where
  -- `.ok().flatten()`
  unfoldable pub block : BlockId → TransactionsKind → Option node.RpcBlock
  block block_id transactions_kind = elim (node.get_block block_id transactions_kind) [
    | ok answer ↦ answer
    | err error ↦ none
  ]

  -- The loop that puts a future for each number to the front of the queue.
  unfoldable pub queue :
      (first count : ℕ) → List (Option node.RpcBlock) → List (Option node.RpcBlock)
  unfolding block
  queue first zero futs = futs
  queue first (suc count) futs = queue (first + 1) count (block (by_number first) hashes ∷ futs)

  -- The loop over the queue, which ends at the first block that is missing or behind the header with
  -- which the response is too large.
  unfoldable pub take_headers : List (Option node.RpcBlock) → ℕ → List node.Header
  take_headers [] total_bytes = []
  take_headers (none ∷ futs) total_bytes = []
  take_headers (some next ∷ futs) total_bytes =
      let header = node.into_consensus next in
      let total = total_bytes + node.header_length header in
      let rest = take_headers futs total in
      header ∷ (if ltb node.soft_response_limit total then [] else rest)

  abbrev pub min : ℕ → ℕ → ℕ
  min a b = if leb a b then a else b

  unfoldable pub on_headers_request : GetHeaders → List node.Header
  unfolding block queue take_headers
  on_headers_request request = elim (block (by_hash request.start_hash) hashes) [
    | none ↦ []
    | some start_block ↦
        let header = node.into_consensus start_block in
        let start_block_number = node.header_number header in
        let end_block_number =
          start_block_number - min (request.limit - 1) node.max_headers_serve in
        let futs = queue end_block_number (start_block_number - end_block_number) [] in
        let rest = take_headers futs (node.header_length header) in
        if leb request.limit 1 then header ∷ [] else header ∷ rest
  ]

  -- The loop over the blocks of the bodies; `count` bodies are taken before.
  unfoldable pub take_bodies :
      List (Option node.RpcBlock) → (count total_bytes : ℕ) → List node.Body
  take_bodies [] count total_bytes = []
  take_bodies (none ∷ futs) count total_bytes = []
  take_bodies (some next ∷ futs) count total_bytes =
      let body = node.into_body next in
      let total = total_bytes + node.body_length body in
      let rest = take_bodies futs (suc count) total in
      body
      ∷ (if leb node.max_bodies_serve (suc count) || ltb node.soft_response_limit total
          then []
          else rest)

  unfoldable pub on_block_bodies_request : List ℕ → List node.Body
  unfolding block take_bodies
  on_block_bodies_request request =
      take_bodies (map (λ block_hash. block (by_hash block_hash) full) request) 0 0

  -- The encoded witness of the block, empty if the node has no block or no witness.
  unfoldable pub on_proof_request : ℕ → List ℕ
  unfolding block
  on_proof_request block_hash = elim (block (by_hash block_hash) hashes) [
    | none ↦ []
    | some found ↦ elim (node.execution_witness (node.header_number (node.into_consensus found))) [
      | ok encoded ↦ encoded
      | err error ↦ []
    ]
  ]

  -- The reply to a request in `run`.
  pub data Response : Type 0 where
    headers : List node.Header → Response
    bodies : List node.Body → Response
    witness : List ℕ → Response

  unfoldable pub respond : ZkRessPeerRequest → Response
  unfolding on_headers_request on_block_bodies_request on_proof_request
  respond (get_headers request) = headers (on_headers_request request)
  respond (get_block_bodies request) = bodies (on_block_bodies_request request)
  respond (get_proof block_hash) = witness (on_proof_request block_hash)

  -- `run` over the requests of the stream.
  unfoldable pub run : List ZkRessPeerRequest → List Response
  unfolding respond
  run [] = []
  run (request ∷ stream) = respond request ∷ run stream
