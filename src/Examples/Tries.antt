-- ===== src/Examples/Tries.antt =====
-- Small tries, an executor that adds up numbers, and a block with its witness.
use mathlib.Core.Path.{fun_ext}
use zk_ress.Base.{
  ℕ, ◌+◌, ◌≡◌, true, false, List, [], ◌∷◌, Option, none, some, ◌==◌, if◌then◌else◌, map_option,
  arith,
}
use zk_ress.Base.Maps.{Map, lookup, insert, remove}
use zk_ress.Env.{ok, err}
use zk_ress.Primitives.{Block}
use zk_ress.Reth.{TrieAccount, Database, Tries, Reth, HashedPostState, ExecutionStateWitness}
use zk_ress.Verifier.Arrivals.{StorageTriesApart}
use zk_ress.Verifier.StateRoot.{Arrival}

pub record SampleTrie : Type 0 where
  pub accounts : Map ℕ
  pub storages : ℕ → Option (Map ℕ)

abbrev pub sum : Map ℕ → ℕ
sum [] = 0
sum ((k, v) ∷ m) = v + sum m

abbrev pub set_at : ℕ → Option (Map ℕ) → (ℕ → Option (Map ℕ)) → ℕ → Option (Map ℕ)
set_at a x storages b = if a == b then x else storages b

abbrev pub balance_account : ℕ → TrieAccount
balance_account balance = record { nonce = 0; balance = balance; storage_root = 0; code_hash = 0 }

-- A leaf holds the balance of its account plus the root of its storage, a root is a sum.
abbrev pub sample_tries : Tries
sample_tries = record {
  Bytes = ℕ;
  keccak256 = λ bytes. bytes;
  RlpError = Unit;
  decode_account = λ bytes. ok (balance_account bytes);
  decode_word = λ bytes. ok bytes;
  encode_account = λ account. account.balance + account.storage_root;
  encode_word = λ word. word;
  is_empty = λ account. account.balance == 0;
  into_trie_account = λ account root. record {
    nonce = account.nonce;
    balance = account.balance;
    storage_root = root;
    code_hash = 0;
  };
  empty_root_hash = 0;
  TrieError = Unit;
  rlp = λ e. tt;
  StorageTrie = Map ℕ;
  revealed_empty = [];
  wipe = λ slots. ok [];
  remove_leaf = λ slot slots. ok (remove slot slots);
  update_leaf = λ slot value slots. ok (insert slot value slots);
  compute_root = λ slots. slots;
  Trie = SampleTrie;
  trie_new = record { accounts = []; storages = λ a. none };
  reveal_witness = λ root nodes trie. ok (record { accounts = nodes; storages = trie.storages });
  get_account_value = λ trie a. lookup a trie.accounts;
  get_storage_slot_value = λ trie a slot. none;
  take_storage_trie = λ a trie. (
    record { accounts = trie.accounts; storages = set_at a none trie.storages },
    trie.storages a,
  );
  insert_storage_trie =
      λ a x trie. record { accounts = trie.accounts; storages = set_at a (some x) trie.storages };
  storage_trie_root = λ a trie. map_option (λ slots. (trie, sum slots)) (trie.storages a);
  remove_account_leaf =
      λ a trie. ok (record { accounts = remove a trie.accounts; storages = trie.storages });
  update_account_leaf = λ a bytes trie.
      ok (record { accounts = insert a bytes trie.accounts; storages = trie.storages });
  root = λ trie. ok (trie, sum trie.accounts);
}

set_at_comm :
    (a b : ℕ) (x y : Option (Map ℕ)) (storages : ℕ → Option (Map ℕ))
    → ¬ (a ≡ b)
    → set_at a x (set_at b y storages) ≡ set_at b y (set_at a x storages)
set_at_comm a b x y storages apart = fun_ext λ c. ground arith

pub sample_tries-Apart : StorageTriesApart sample_tries
sample_tries-Apart = record {
  insert_comm = λ a b x y trie apart i. record {
    accounts = trie.accounts;
    storages = set_at_comm a b (some x) (some y) trie.storages apart i;
  };
  take_comm = λ a b trie apart i. record {
    accounts = trie.accounts;
    storages = set_at_comm b a none none trie.storages (λ e. apart (cc e)) i;
  };
  take_same = λ a b trie apart. ground arith;
}

-- The balance of account 5, plus what the transactions add; slot 1 becomes 2.
abbrev pub sample_update : ℕ → HashedPostState
sample_update total = record {
  accounts =
      (5, some (record { nonce = 0; balance = total; bytecode_hash = none }))
      ∷ (3, some (record { nonce = 0; balance = 4; bytecode_hash = none }))
      ∷ [];
  storages =
      (5, record { wiped = false; storage = (1, 2) ∷ [] })
      ∷ (3, record { wiped = true; storage = (2, 0) ∷ (1, 1) ∷ [] })
      ∷ [];
}

abbrev pub balance_of : Database ℕ ℕ Unit → ℕ
balance_of db = elim (db.basic 5) [
  | ok found ↦ elim found [ none ↦ 0 | some info ↦ info.balance ]
  | err e ↦ 0
]

abbrev pub sample_reth : Reth Unit Unit
sample_reth = record {
  tries = sample_tries;
  trie_witness_error = λ e. tt;
  bytecode_not_found = λ hash. tt;
  rlp_error = λ e. tt;
  state_for_number_not_found = λ number. tt;
  body_state_root_diff = λ got expected. tt;
  validate_header = λ h. none;
  validate_block_pre_execution = λ b. none;
  validate_header_against_parent = λ h parent. none;
  Outcome = ℕ;
  validate_block_post_execution = λ b outcome. none;
  Address = ℕ;
  address_bytes = λ a. a;
  word_bytes = λ w. w;
  Bytecode = ℕ;
  new_raw = λ bytes. bytes;
  hash_slow = λ code. code + 1;
  State = ℕ;
  build_state = balance_of;
  Transaction = ℕ;
  transactions_recovered = λ b. 2 ∷ [];
  Strategy = ℕ;
  executor_for_block = λ state b. state;
  apply_pre_execution_changes = λ strategy. ok strategy;
  execute_transaction = λ tx strategy. ok (strategy + tx);
  apply_post_execution_changes = λ strategy. ok (strategy, strategy);
  merge_transitions = λ state. state;
  Bundle = ℕ;
  take_bundle = λ state. state;
  from_bundle_state = sample_update;
}

abbrev pub in_order : List (Arrival sample_tries) → List (Arrival sample_tries)
in_order rs = rs

abbrev pub sample_witness : ExecutionStateWitness ℕ
sample_witness = record { state = 5 ∷ []; bytecodes = 8 ∷ 9 ∷ [] }

-- Account 5 ends with 5 + 2 and a storage of 2, account 3 with 4 and a storage of 1.
abbrev pub rooted_block : Block Unit
rooted_block = record {
  header = record {
    hash = 11;
    number = 1;
    parent_hash = 10;
    parent_number = 0;
    state_root = 14;
    difficulty = 0;
  };
  body = tt;
}
