-- ===== src/Examples/Networks.antt =====
-- Runs of the downloads and of the network manager.
use zk_ress.Base.{
  ℕ, ◌+◌, ◌≡◌, ◌⊎◌, refl, Bool, true, false, List, [], ◌∷◌, ◌++◌, none, some, ◌==◌, All,
}
use zk_ress.Download.Bodies
use zk_ress.Download.Bodies.{zip_blocks, start, on_bodies_response}
use zk_ress.Download.Bodies.Pairs.{on_bodies_response-Fit, poll_mispairs}
use zk_ress.Download.Ancestors
use zk_ress.Download.Ancestors.Sound.{Responses, Answers, run, run-new}
use zk_ress.Download.Headers
use zk_ress.Download.Headers.{GetHeaders}
use zk_ress.Download.Headers.Range.{IsAnswer, IsRange, poll-IsRange}
use zk_ress.Download.FullBlock.{poll, new}
use zk_ress.Download.FullBlock.Sound as Block
use zk_ress.Download.FullBlock.Sound.{run_new-IsAnswer}
use zk_ress.Env.{ok}
use zk_ress.Examples.Samples.{header_at, sample_network}
use zk_ress.Network.{ConnectionHandle, RessNetworkManager, poll_round, on_peer_request}
use zk_ress.Network.Requests.{
  weigh_all, weigh_taken, taken, poll_round-weigh, Turn, on_peer_request_lem,
}
use zk_ress.Primitives.{SealedHeader}

abbrev first_header : SealedHeader
first_header = header_at 11 1 10 0

abbrev second_header : SealedHeader
second_header = header_at 12 2 11 1

abbrev third_header : SealedHeader
third_header = header_at 13 3 12 2

-- A wrong header comes in the first poll; then the header and a wrong body, and in the third poll the body.
abbrev three_polls : List (Block.Responses sample_network)
three_polls =
    ((some (ok (some third_header)), none) ∷ [])
    ∷ ((some (ok (some second_header)), some (ok (some 99))) ∷ [])
    ∷ ((none, some (ok (some 12))) ∷ [])
    ∷ []

run_new-IsAnswer_example :
    (second_header.hash ≡ 12) × (sample_network.body_fits 12 second_header ≡ true)
run_new-IsAnswer_example =
    run_new-IsAnswer sample_network 12 three_polls (record { header = second_header; body = 12 })
      returned
  where
    returned :
        Block.run sample_network three_polls (new 12)
        ≡ some (record { header = second_header; body = 12 })
    returned = unfold poll in unfold new in refl

on_bodies_response-Fit_example :
    (on_bodies_response sample_network
      (ok (12 ∷ 13 ∷ []))
      (start (second_header ∷ third_header ∷ []))).1
    ≡ some (zip_blocks (second_header ∷ third_header ∷ []) (12 ∷ 13 ∷ []))
on_bodies_response-Fit_example =
    on_bodies_response-Fit sample_network (second_header ∷ third_header ∷ []) 12 (13 ∷ [])
      (refl, (refl, tt)) refl

poll_mispairs_example :
    (Bodies.poll sample_network
      (ok (99 ∷ 13 ∷ []) ∷ ok (13 ∷ []) ∷ [])
      (start (second_header ∷ third_header ∷ []))).1
    ≡ some (zip_blocks (second_header ∷ third_header ∷ []) (13 ∷ 13 ∷ []))
poll_mispairs_example =
    poll_mispairs sample_network second_header third_header 99 13 13 refl refl refl

abbrev peer : ℕ → ConnectionHandle
peer id = record { peer_id = id; to_connection = id }

-- Of three connections the first is closed, and a request waits.
abbrev three_peers : RessNetworkManager ℕ
three_peers = record {
  connections = peer 1 ∷ peer 2 ∷ peer 3 ∷ [];
  pending_requests = 50 ∷ [];
  sent = [];
}

abbrev not_first : ConnectionHandle → Bool
not_first c = elim (c.peer_id == 1) [ true ↦ false | false ↦ true ]

poll_round-weigh_example :
    weigh_all (λ r. r) (poll_round not_first none (some 60) three_peers).0
    ≡ weigh_taken (λ r. r) (taken none (some 60) three_peers) + weigh_all (λ r. r) three_peers
poll_round-weigh_example = poll_round-weigh (λ r. r) not_first none (some 60) three_peers

on_peer_request_lem_example :
    Turn not_first 60 three_peers (on_peer_request not_first 60 three_peers)
    ⊎ (All (λ c. not_first c ≡ false) three_peers.connections
        × (on_peer_request not_first 60 three_peers ≡ record three_peers {
          connections = [];
          pending_requests = three_peers.pending_requests ++ 60 ∷ [];
        }))
on_peer_request_lem_example = on_peer_request_lem not_first 60 three_peers

abbrev two_headers : GetHeaders
two_headers = record { start_hash = 13; limit = 2 }

-- An answer that is too short, and a good one.
poll-IsRange_example : IsAnswer sample_network two_headers (
    Headers.poll sample_network two_headers
      (ok (third_header ∷ []) ∷ ok (third_header ∷ second_header ∷ []) ∷ []))
poll-IsRange_example =
    poll-IsRange sample_network two_headers
      (ok (third_header ∷ []) ∷ ok (third_header ∷ second_header ∷ []) ∷ [])

-- The block comes in the first poll, and the headers in the second, behind an answer that is too short.
abbrev two_polls : List (Responses sample_network 13 2 × Answers sample_network 13 2)
two_polls =
    ((some (ok (some third_header)), some (ok (some 13))) ∷ [], [])
    ∷ ([], ok [] ∷ ok (second_header ∷ first_header ∷ []) ∷ [])
    ∷ []

run-new_example :
    (third_header.hash ≡ 13)
    × (sample_network.body_fits 13 third_header ≡ true)
    × IsRange sample_network
        (record { start_hash = 12; limit = 2 })
        (second_header ∷ first_header ∷ [])
run-new_example =
    run-new sample_network 13 2 two_polls (record { header = third_header; body = 13 })
      (second_header ∷ first_header ∷ []) returned
  where
    returned :
        run sample_network 13 2 two_polls (Ancestors.new 13 2)
        ≡ some (record { header = third_header; body = 13 }, second_header ∷ first_header ∷ [])
    returned = unfold Ancestors.poll in unfold Ancestors.new in refl
