-- ===== src/Download.antt =====
-- crates/engine/src/download: the futures that fetch data from peers, and the downloader that runs
-- them. What the network answers, and when, is an input of each poll.
use zk_ress.Base.{ℕ, Bool, List, Option}
use zk_ress.Primitives.{SealedHeader}
pub mod FullBlock
pub mod Headers
pub mod Ancestors
pub mod Bodies
pub mod Proof
pub mod Downloader

-- crates/network/src/handle.rs: `PeerRequestError`.
pub data PeerRequestError : Type 0 where
  request_dropped connection_closed : PeerRequestError

-- What the futures take from other crates, over the type of block bodies and that of proofs.
pub record Network (B P : Type 0) : Type 1 where
  -- A header as it comes from a peer, and `SealedHeader::seal_slow`.
  pub RawHeader : Type 0
  pub seal_slow : RawHeader → SealedHeader
  -- `validate_body_against_header` and `validate_header_range` of the consensus: true is `Ok`.
  pub body_fits : B → SealedHeader → Bool
  pub header_range_fits : List SealedHeader → Bool
  -- `Decodable::decode` and `ExecutionProof::is_empty`.
  pub Bytes : Type 0
  pub decode : Bytes → Option P
  pub is_empty : P → Bool
