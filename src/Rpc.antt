-- ===== src/Rpc.antt =====
-- bin/zk-ress/src/rpc.rs: `RessEthRpc`, the eth methods beside the Engine API. The arguments that no
-- method reads are left out.
use zk_ress.Base.{ℕ, Option, some}
use zk_ress.Env.{Result, ok, err}
use zk_ress.Provider.{ZkRessProvider}

-- The methods of `EngineEthApiServer`.
pub data EthMethod : Type 0 where
  syncing chain_id block_number call get_code block_by_hash block_by_number block_receipts
        send_raw_transaction transaction_receipt logs get_proof :
      EthMethod

pub data EthReply : Type 0 where
  sync_status_none : EthReply
  id : Option ℕ → EthReply

pub data EthApiError : Type 0 where
  unsupported : EthApiError

-- `RessEthRpc`, with the chain id of the specification.
pub record RessEthRpc (B P : Type 0) : Type 0 where
  pub provider : ZkRessProvider B P
  pub chain : ℕ

unfoldable pub handle : {B P : Type 0} → RessEthRpc B P → EthMethod → Result EthReply EthApiError
handle this syncing = ok sync_status_none
handle this chain_id = ok (id (some this.chain))
handle this block_number = err unsupported
handle this call = err unsupported
handle this get_code = err unsupported
handle this block_by_hash = err unsupported
handle this block_by_number = err unsupported
handle this block_receipts = err unsupported
handle this send_raw_transaction = err unsupported
handle this transaction_receipt = err unsupported
handle this logs = err unsupported
handle this get_proof = err unsupported
