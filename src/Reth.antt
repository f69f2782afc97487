-- ===== src/Reth.antt =====
-- What the verifier takes from other crates (reth, alloy): consensus checks, tries, encodings and the
-- block executor. All of it is a parameter, `Reth`.
use zk_ress.Base.{ℕ, Bool, List, Option}
use zk_ress.Base.Maps.{Map}
use zk_ress.Env.{Result}
use zk_ress.Primitives.{SealedHeader, Block}

-- `TrieAccount`
pub record TrieAccount : Type 0 where
  pub nonce : ℕ
  pub balance : ℕ
  pub storage_root : ℕ
  pub code_hash : ℕ

-- `AccountInfo`
pub record AccountInfo (C : Type 0) : Type 0 where
  pub balance : ℕ
  pub nonce : ℕ
  pub code_hash : ℕ
  pub code : Option C

-- `Account`, an account without its storage.
pub record Account : Type 0 where
  pub nonce : ℕ
  pub balance : ℕ
  pub bytecode_hash : Option ℕ

-- revm's `Database`, which reth's executor reads the state through. `A` is an address, `C` a bytecode
-- and `E` a `ProviderError`.
pub record Database (A C E : Type 0) : Type 0 where
  pub basic : A → Result (Option (AccountInfo C)) E
  pub storage : A → ℕ → Result ℕ E
  pub code_by_hash : ℕ → Result C E
  pub block_hash : ℕ → Result ℕ E

-- `HashedStorage` and `HashedPostState`. A hash map that is iterated is the list of its entries in
-- the order of the iteration.
pub record HashedStorage : Type 0 where
  pub wiped : Bool
  pub storage : List (ℕ × ℕ)

pub record HashedPostState : Type 0 where
  pub accounts : List (ℕ × Option Account)
  pub storages : List (ℕ × HashedStorage)

-- `ExecutionStateWitness`, the proof that this verifier reads.
pub record ExecutionStateWitness (Bytes : Type 0) : Type 0 where
  pub state : List Bytes
  pub bytecodes : List Bytes

-- `BlockExecutionOutput`
pub record BlockExecutionOutput (Bundle Outcome : Type 0) : Type 0 where
  pub state : Bundle
  pub result : Outcome

-- `SparseStateTrie` and `SparseTrie` with the encodings of their leaves.
pub record Tries : Type 1 where
  pub Bytes : Type 0
  pub keccak256 : Bytes → ℕ
  pub RlpError : Type 0
  pub decode_account : Bytes → Result TrieAccount RlpError
  pub decode_word : Bytes → Result ℕ RlpError
  pub encode_account : TrieAccount → Bytes
  pub encode_word : ℕ → Bytes
  -- `Account::is_empty` and `Account::into_trie_account`.
  pub is_empty : Account → Bool
  pub into_trie_account : Account → ℕ → TrieAccount
  pub empty_root_hash : ℕ
  pub TrieError : Type 0
  pub rlp : RlpError → TrieError
  -- `SparseTrie`. `root` keeps what it computes, so it changes the trie.
  pub StorageTrie : Type 0
  pub revealed_empty : StorageTrie
  pub wipe : StorageTrie → Result StorageTrie TrieError
  pub remove_leaf : ℕ → StorageTrie → Result StorageTrie TrieError
  pub update_leaf : ℕ → Bytes → StorageTrie → Result StorageTrie TrieError
  pub compute_root : StorageTrie → StorageTrie
  -- `SparseStateTrie`
  pub Trie : Type 0
  pub trie_new : Trie
  pub reveal_witness : ℕ → Map Bytes → Trie → Result Trie TrieError
  pub get_account_value : Trie → ℕ → Option Bytes
  pub get_storage_slot_value : Trie → ℕ → ℕ → Option Bytes
  pub take_storage_trie : ℕ → Trie → Trie × Option StorageTrie
  pub insert_storage_trie : ℕ → StorageTrie → Trie → Trie
  -- `storage_trie_mut` of an account, and the `root` of the trie that it lends.
  pub storage_trie_root : ℕ → Trie → Option (Trie × ℕ)
  pub remove_account_leaf : ℕ → Trie → Result Trie TrieError
  pub update_account_leaf : ℕ → Bytes → Trie → Result Trie TrieError
  pub root : Trie → Result (Trie × ℕ) TrieError

-- The errors, the consensus and the executor, over the bodies of blocks and the errors of `Env`.
pub record Reth (Body Error : Type 0) : Type 1 where
  pub tries : Tries
  pub open tries use *
  -- The variants of `ProviderError` and `ConsensusError` that the program builds.
  pub trie_witness_error : TrieError → Error
  pub bytecode_not_found : ℕ → Error
  pub rlp_error : RlpError → Error
  pub state_for_number_not_found : ℕ → Error
  pub body_state_root_diff : (got expected : ℕ) → Error
  -- `EthBeaconConsensus`
  pub validate_header : SealedHeader → Option Error
  pub validate_block_pre_execution : Block Body → Option Error
  pub validate_header_against_parent : SealedHeader → SealedHeader → Option Error
  pub Outcome : Type 0
  pub validate_block_post_execution : Block Body → Outcome → Option Error
  -- Addresses and slots as the bytes that are hashed, and bytecodes.
  pub Address : Type 0
  pub address_bytes : Address → Bytes
  pub word_bytes : ℕ → Bytes
  pub Bytecode : Type 0
  pub new_raw : Bytes → Bytecode
  pub hash_slow : Bytecode → ℕ
  -- `State` with its builder, and the strategy that `EthEvmConfig` gives for a block. The strategy
  -- borrows the state and gives it back at the end.
  pub State : Type 0
  pub build_state : Database Address Bytecode Error → State
  pub Transaction : Type 0
  pub transactions_recovered : Block Body → List Transaction
  pub Strategy : Type 0
  pub executor_for_block : State → Block Body → Strategy
  pub apply_pre_execution_changes : Strategy → Result Strategy Error
  pub execute_transaction : Transaction → Strategy → Result Strategy Error
  pub apply_post_execution_changes : Strategy → Result (State × Outcome) Error
  pub merge_transitions : State → State
  pub Bundle : Type 0
  pub take_bundle : State → Bundle
  -- `HashedPostState::from_bundle_state`
  pub from_bundle_state : Bundle → HashedPostState
