-- ===== src/Provider.antt =====
-- crates/provider/src/provider.rs: the provider, a chain specification beside the chain state. Its
-- clones share the chain state, so every reader is given the state of the moment.
pub mod ChainUpdate
pub mod Protocol
use zk_ress.Base.{ℕ, Bool, List, [], ◌∷◌, Option, if◌then◌else◌}
use zk_ress.ChainState
use zk_ress.ChainState.{ChainStateInner}
use zk_ress.Primitives.{NumHash, SealedHeader, Block, is_zero}

-- Of the chain specification the program reads the genesis header.
pub record ZkRessProvider (B P : Type 0) : Type 0 where
  pub genesis_header : SealedHeader
  pub chain_state : ChainStateInner B P

module _ {B P : Type 0} where
  unfoldable pub new : SealedHeader → ZkRessProvider B P
  new genesis = record { genesis_header = genesis; chain_state = ChainState.default }

  unfoldable pub is_hash_canonical : ZkRessProvider B P → ℕ → Bool
  unfolding ChainState.is_hash_canonical
  is_hash_canonical p hash = ChainState.is_hash_canonical p.chain_state hash

  unfoldable pub block_hash : ZkRessProvider B P → NumHash → ℕ → Option ℕ
  unfolding ChainState.block_hash
  block_hash p parent number = ChainState.block_hash p.chain_state parent number

  unfoldable pub block_number : ZkRessProvider B P → ℕ → Option ℕ
  unfolding ChainState.block_number
  block_number p hash = ChainState.block_number p.chain_state hash

  unfoldable pub sealed_header : ZkRessProvider B P → ℕ → Option SealedHeader
  unfolding ChainState.sealed_header
  sealed_header p hash = ChainState.sealed_header p.chain_state hash

  unfoldable pub insert_block : Block B → Option P → ZkRessProvider B P → ZkRessProvider B P
  insert_block block maybe_witness p = record p {
    chain_state = ChainState.insert_block block maybe_witness p.chain_state;
  }

  unfoldable pub insert_canonical_hash : ℕ → ℕ → ZkRessProvider B P → ZkRessProvider B P
  insert_canonical_hash number hash p = record p {
    chain_state = ChainState.insert_canonical_hash number hash p.chain_state;
  }

  -- The two loops of `on_chain_update`.
  unfoldable pub remove_headers : List SealedHeader → ChainStateInner B P → ChainStateInner B P
  remove_headers [] s = s
  remove_headers (h ∷ hs) s = remove_headers hs (ChainState.remove_canonical_hash h.number h.hash s)

  unfoldable pub insert_headers : List SealedHeader → ChainStateInner B P → ChainStateInner B P
  insert_headers [] s = s
  insert_headers (h ∷ hs) s = insert_headers hs (ChainState.insert_canonical_hash h.number h.hash s)

  unfoldable pub on_chain_update :
      List SealedHeader → List SealedHeader → ZkRessProvider B P → ZkRessProvider B P
  on_chain_update added removed p = record p {
    chain_state = insert_headers added (remove_headers removed p.chain_state);
  }

  unfoldable pub on_finalized : ℕ → ZkRessProvider B P → ZkRessProvider B P
  on_finalized finalized_hash p = if is_zero finalized_hash then p else record p {
    chain_state = ChainState.remove_blocks_on_finalized finalized_hash p.chain_state;
  }
