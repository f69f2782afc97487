-- ===== src/Provider/Protocol.antt =====
-- crates/provider/src/provider.rs: `ZkRessProtocolProvider`, what the provider serves to peers, and the
-- way back through the downloads of crates/engine/src/download/futs.rs.
use zk_ress.Base.{ℕ, ◌≡◌, refl, true, false, List, ◌∷◌, Option, none, some, arith, ==_refl}
use zk_ress.Base.Maps.{lookup-insert}
use zk_ress.ChainState
use zk_ress.Download.{Network, PeerRequestError}
use zk_ress.Download.FullBlock
use zk_ress.Download.FullBlock.{HeaderResponse, BodyResponse}
use zk_ress.Download.Proof as DownloadProof
use zk_ress.Env.{Result, ok}
use zk_ress.Primitives.{SealedHeader, Block}
use zk_ress.Provider.{ZkRessProvider, insert_block}

-- `E` is the error of a `ProviderResult`, which is not used.
module _ {B P : Type 0} (E : Type 0) where
  unfoldable pub header :
      {H : Type 0} → (SealedHeader → H) → ZkRessProvider B P → ℕ → Result (Option H) E
  unfolding ChainState.header
  header clone_header this block_hash =
      ok (ChainState.header clone_header this.chain_state block_hash)

  unfoldable pub block_body : ZkRessProvider B P → ℕ → Result (Option B) E
  unfolding ChainState.block_body
  block_body this block_hash = ok (ChainState.block_body this.chain_state block_hash)

  -- The encoded proof, and `Bytes::default` without one.
  unfoldable pub proof :
      {Bytes : Type 0} → (P → Bytes) → Bytes → ZkRessProvider B P → ℕ → Result Bytes E
  unfolding ChainState.proof
  proof encode default_bytes this block_hash = elim (ChainState.proof this.chain_state block_hash) [
    | none ↦ ok default_bytes
    | some witness ↦ ok (encode witness)
  ]

module _ {B P : Type 0} (E : Type 0) (net : Network B P) (this : ZkRessProvider B P)
    (block : Block B) where
  -- A block that is stored with a proof serves the proof, and a download that is answered with it
  -- returns the proof, if what is encoded decodes to the same and the proof is not empty.
  pub poll-proof :
      (encode : P → net.Bytes) (default_bytes : net.Bytes) (witness : P)
      (responses : List (Result net.Bytes PeerRequestError))
      → net.decode (encode witness) ≡ some witness
      → net.is_empty witness ≡ false
      → (bytes : net.Bytes) × (proof E encode default_bytes
            (insert_block block (some witness) this)
            block.hash
          ≡ ok bytes)
        × (DownloadProof.poll net (ok bytes ∷ responses) ≡ some witness)
  unfolding proof insert_block ChainState.insert_block ChainState.insert_proof ChainState.proof
      DownloadProof.poll DownloadProof.accepted
  poll-proof encode default_bytes witness responses decodes full =
      let inserted = lookup-insert block.hash block.hash witness this.chain_state.proofs in
      (encode witness, ground (arith, inserted), ground (arith, decodes, full))

  -- A block that is stored is served in two parts, and a new download that is answered with both
  -- in its first round returns the same block, if sealing the header again gives the header and
  -- the body fits it.
  pub poll-header-block_body :
      (clone_header : SealedHeader → net.RawHeader) (maybe_proof : Option P)
      (responses : List (Option (HeaderResponse net) × Option (BodyResponse net)))
      → net.seal_slow (clone_header block.header) ≡ block.header
      → net.body_fits block.body block.header ≡ true
      → (raw : net.RawHeader) × (body : B) × (header E clone_header
            (insert_block block maybe_proof this)
            block.hash
          ≡ ok (some raw))
        × (block_body E (insert_block block maybe_proof this) block.hash ≡ ok (some body))
        × ((FullBlock.poll net
              ((some (ok (some raw)), some (ok (some body))) ∷ responses)
              (FullBlock.new block.hash)).1
            ≡ some block)
  unfolding header block_body insert_block ChainState.insert_block ChainState.header
      ChainState.block_body ChainState.map_recovered_block FullBlock.poll FullBlock.round
      FullBlock.poll_header FullBlock.take_header FullBlock.on_header_response FullBlock.round_body
      FullBlock.poll_body FullBlock.take_body FullBlock.on_body_response FullBlock.assemble
      FullBlock.new
  poll-header-block_body clone_header maybe_proof responses sealed fits =
      let inserted = lookup-insert block.hash block.hash block this.chain_state.blocks_by_hash in
      (
        clone_header block.header,
        block.body,
        rw (inserted, ==_refl block.hash) refl,
        rw (inserted, ==_refl block.hash) refl,
        ground (arith, sealed, fits),
      )
