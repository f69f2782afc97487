-- ===== src/Examples/Peers.antt =====
-- What the node serves to peers, the RPC adapter and the HTTP adapter on small data, and the chain
-- state against its specification.
use Prim.Native.String.{String, len}
use zk_ress.Adapter.{ress_auth, Http, HttpResponse, forward_request}
use zk_ress.Adapter.Routes.{Routed, sent_on, forward_request_lem}
use zk_ress.Base.{ℕ, ◌-◌, ◌≡◌, refl, true, List, [], ◌∷◌, none, some, arith, leb, if◌then◌else◌}
use zk_ress.Base.Maps.{lookup}
use zk_ress.ChainState.Refines.{
  Op, store, mark, finalize, view, spec_all, apply_all, view-apply_all,
}
use zk_ress.ChainState.Invariant.{IsConsistent}
use zk_ress.Download.FullBlock
use zk_ress.Download.Proof as DownloadProof
use zk_ress.Env.{ok, err}
use zk_ress.Examples.ChainStates.{two_stored-IsConsistent}
use zk_ress.Examples.Samples.{two_stored, two_provider, third_block, sample_network}
use zk_ress.Download.Headers.{GetHeaders}
use zk_ress.Network.Handle.{get_headers}
use zk_ress.Primitives.{SealedHeader, Block}
use zk_ress.Provider.{ZkRessProvider, insert_block}
use zk_ress.Provider.Protocol.{header, block_body, proof, poll-proof, poll-header-block_body}
use zk_ress.RpcAdapter.{RpcNode, by_hash, by_number, block, hashes, on_headers_request, respond}
use zk_ress.RpcAdapter.Bounds.{Falls, Limits, respond-Limits, on_headers_request-Falls}

-- The third block with a body that fits it, its hash.
abbrev numbered_block : Block ℕ
numbered_block = record { header = third_block.header; body = 13 }

abbrev numbered_provider : ZkRessProvider ℕ ℕ
numbered_provider = record {
  genesis_header = two_provider.genesis_header;
  chain_state = record {
    canonical_hashes_by_number = [];
    blocks_by_hash = [];
    block_hashes_by_number = [];
    proofs = [];
  };
}

poll-proof_example :
    (bytes : ℕ) × (proof Unit (λ p. p) 0 (insert_block numbered_block (some 7) numbered_provider) 13
      ≡ ok bytes)
    × (DownloadProof.poll sample_network (ok bytes ∷ []) ≡ some 7)
poll-proof_example =
    poll-proof Unit sample_network numbered_provider numbered_block (λ p. p) 0 7 [] refl refl

poll-header-block_body_example :
    (raw : SealedHeader) × (body : ℕ) × (header Unit
        (λ h. h)
        (insert_block numbered_block none numbered_provider)
        13
      ≡ ok (some raw))
    × (block_body Unit (insert_block numbered_block none numbered_provider) 13 ≡ ok (some body))
    × ((FullBlock.poll sample_network
          ((some (ok (some raw)), some (ok (some body))) ∷ [])
          (FullBlock.new 13)).1
        ≡ some numbered_block)
poll-header-block_body_example =
    poll-header-block_body Unit sample_network numbered_provider numbered_block (λ h. h) none []
      refl refl

-- A node with the numbers up to 9: the block with hash `10 + n` has the number n.
abbrev small_node : RpcNode
small_node = record {
  RpcBlock = ℕ;
  RpcError = Unit;
  get_block = λ id kind. elim id [
    | by_hash h ↦ ok (some (h - 10))
    | by_number n ↦ if leb n 9 then ok (some n) else err tt
  ];
  Header = ℕ;
  into_consensus = λ n. n;
  header_number = λ n. n;
  header_length = λ n. 500;
  Body = ℕ;
  into_body = λ n. n;
  body_length = λ n. 1000;
  execution_witness = λ n. ok (n ∷ []);
  max_headers_serve = 3;
  max_bodies_serve = 2;
  soft_response_limit = 1800;
}

abbrev five_headers : GetHeaders
five_headers = record { start_hash = 17; limit = 5 }

respond-Limits_example :
    Limits small_node (get_headers five_headers) (respond small_node (get_headers five_headers))
respond-Limits_example = respond-Limits small_node (get_headers five_headers) (omega arith)

on_headers_request-Falls_example :
    (rest : List ℕ) × (on_headers_request small_node five_headers ≡ 7 ∷ rest)
    × Falls small_node 7 rest
unfolding block
on_headers_request-Falls_example = on_headers_request-Falls small_node five_headers 7 numbered seven
  where
    numbered : (n : ℕ) (found : ℕ) → block small_node (by_number n) hashes ≡ some found → found ≡ n
    numbered n found e = ground (arith, e)

    seven : block small_node (by_hash 17) hashes ≡ some 7
    seven = refl

-- Bodies are texts: a method for requests, a payload id for responses.
abbrev small_http : Http
small_http = record {
  Bytes = String;
  HyperError = Unit;
  Method = String;
  Header = ℕ;
  Parts = ℕ;
  set_content_length = λ n parts. n;
  length = λ bytes. len bytes;
  Value = String;
  from_slice = λ bytes. some bytes;
  to_vec = λ v. v;
  method = λ v. some v;
  PayloadId = String;
  result_payload_id = λ v. some v;
  set_result_payload_id = λ id v. id;
  send = λ req. elim req.uri [
    | ress_auth ↦ some (record { parts = 2; body = ok "ress" })
    | _ ↦ some (record { parts = 1; body = ok "id" })
  ];
}

abbrev ress_response : HttpResponse small_http
ress_response = record { parts = 2; body = ok "id" }

-- A method of the engine goes to both servers.
routed :
    (forward_request small_http "POST" (1 ∷ 2 ∷ []) (ok "engine_newPayloadV3") true []).1
    ≡ ok ress_response
unfolding forward_request
routed = refl

forward_request_lem_example :
    Routed small_http "POST"
      (1 ∷ 2 ∷ [])
      "engine_newPayloadV3"
      true
      ress_response
      (sent_on small_http "POST" (1 ∷ 2 ∷ []) "engine_newPayloadV3")
forward_request_lem_example =
    forward_request_lem small_http "POST" (1 ∷ 2 ∷ []) "engine_newPayloadV3" true ress_response
      routed

-- The third block comes, and the second becomes final.
abbrev three_ops : List (Op Unit ℕ)
three_ops = store third_block (some 7) ∷ mark 3 13 ∷ finalize 12 ∷ []

view-apply_all_example :
    (view (apply_all three_ops two_stored) ≡ spec_all three_ops (view two_stored))
    × IsConsistent (apply_all three_ops two_stored)
view-apply_all_example =
    view-apply_all three_ops two_stored two_stored-IsConsistent (third_new, (tt, (tt, tt)))
  where
    third_new : (old : Block Unit) → lookup 13 two_stored.blocks_by_hash ≡ some old → old.number ≡ 3
    third_new old e = unfold lookup in cc e
