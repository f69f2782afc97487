-- ===== src/Evm.antt =====
-- crates/evm/src: the database over a revealed trie (db.rs) and the block executor (executor.rs).
use zk_ress.Base.{ℕ, Option, none, some}
use zk_ress.Base.Maps.{Map, lookup}
use zk_ress.Env.{Result, ok}
use zk_ress.Primitives.{NumHash, Block}
use zk_ress.Provider
use zk_ress.Provider.{ZkRessProvider}
use zk_ress.Results.{◌>>=◌, map_err, ok_or, try_fold}
use zk_ress.Reth.{
  TrieAccount, AccountInfo, Database, ExecutionStateWitness, BlockExecutionOutput, Reth,
}

module _ {Body Error : Type 0} (reth : Reth Body Error) where
  abbrev pub WitnessProvider : Type 0
  WitnessProvider = ZkRessProvider Body (ExecutionStateWitness reth.Bytes)

  pub record WitnessDatabase : Type 0 where
    pub provider : WitnessProvider
    pub parent : NumHash
    pub trie : reth.Trie
    pub bytecodes : Map reth.Bytecode

  -- The account as revm reads it: its code is left to `code_by_hash`.
  unfoldable pub account_info : TrieAccount → AccountInfo reth.Bytecode
  account_info account = record {
    balance = account.balance;
    nonce = account.nonce;
    code_hash = account.code_hash;
    code = none;
  }

  unfoldable pub basic :
      WitnessDatabase → reth.Address → Result (Option (AccountInfo reth.Bytecode)) Error
  unfolding account_info
  basic this address =
      elim (reth.get_account_value this.trie (reth.keccak256 (reth.address_bytes address))) [
        | none ↦ ok none
        | some bytes ↦ map_err reth.rlp_error (reth.decode_account bytes) >>= λ account.
            ok (some (account_info account))
      ]

  unfoldable pub storage : WitnessDatabase → reth.Address → ℕ → Result ℕ Error
  storage this address slot =
      let hashed_address = reth.keccak256 (reth.address_bytes address) in
      let hashed_slot = reth.keccak256 (reth.word_bytes slot) in
      elim (reth.get_storage_slot_value this.trie hashed_address hashed_slot) [
        | none ↦ ok 0
        | some value ↦ map_err reth.rlp_error (reth.decode_word value)
      ]

  unfoldable pub code_by_hash : WitnessDatabase → ℕ → Result reth.Bytecode Error
  code_by_hash this code_hash =
      ok_or (lookup code_hash this.bytecodes) (reth.bytecode_not_found code_hash)

  unfoldable pub block_hash : WitnessDatabase → ℕ → Result ℕ Error
  unfolding Provider.block_hash
  block_hash this block_number =
      ok_or (Provider.block_hash this.provider this.parent block_number)
        (reth.state_for_number_not_found block_number)

  -- `impl Database for WitnessDatabase`
  unfoldable pub database : WitnessDatabase → Database reth.Address reth.Bytecode Error
  unfolding basic storage code_by_hash block_hash
  database this = record {
    basic = basic this;
    storage = storage this;
    code_by_hash = code_by_hash this;
    block_hash = block_hash this;
  }

  -- The configuration of the EVM is fixed by the chain specification and stands in the parameters.
  pub record BlockExecutor : Type 0 where
    pub state : reth.State

  unfoldable pub executor_new :
      WitnessProvider → NumHash → reth.Trie → Map reth.Bytecode → BlockExecutor
  unfolding database
  executor_new provider parent trie bytecodes =
      let db : WitnessDatabase = record {
        provider = provider;
        parent = parent;
        trie = trie;
        bytecodes = bytecodes;
      } in
      record { state = reth.build_state (database db) }

  unfoldable pub execute :
      Block Body → BlockExecutor → Result (BlockExecutionOutput reth.Bundle reth.Outcome) Error
  execute block this = do
    let strategy = reth.executor_for_block this.state block
    prepared ← reth.apply_pre_execution_changes strategy
    executed ← try_fold reth.execute_transaction (reth.transactions_recovered block) prepared
    (state, result) ← reth.apply_post_execution_changes executed
    ok (record { state = reth.take_bundle (reth.merge_transitions state); result = result })
