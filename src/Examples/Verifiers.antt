-- ===== src/Examples/Verifiers.antt =====
-- The verifier on small data: a block with its witness, an update in two orders, and the bytecodes.
use zk_ress.Base.{ℕ, ◌+◌, ◌≡◌, ◌≢◌, ◌⊎◌, refl, true, false, List, [], ◌∷◌, none, some, arith, All}
use zk_ress.Base.Perms.{Reordered, empty, keep, swap, Reordered-refl}
use zk_ress.Env.{ok, err}
use zk_ress.Evm.{WitnessProvider, WitnessDatabase, code_by_hash}
use zk_ress.Examples.Samples.{header_at}
use zk_ress.Examples.Tries.{
  SampleTrie, sample_tries, sample_tries-Apart, sample_reth, in_order, sample_witness, rooted_block,
  sample_update,
}
use zk_ress.Primitives.{SealedHeader}
use zk_ress.Reth.{HashedPostState}
use zk_ress.Base.Maps.{lookup, insert, remove}
use zk_ress.Verifier.{verify, bytecode_map}
use zk_ress.Verifier.Codes.{AnyOf, code_by_hash_lem}
use zk_ress.Verifier.Sorting.{SameUpdate}
use zk_ress.Verifier.Order.{calculate_state_root-SameUpdate}
use zk_ress.Verifier.StateRoot.{Arrival, insert_sorted, update_slot, calculate_state_root}
use zk_ress.Verifier.Verdict.{Computes, Verdict, verify-Verdict}

abbrev parent_header : SealedHeader
parent_header = header_at 10 0 0 0

abbrev empty_provider : WitnessProvider sample_reth
empty_provider = record {
  genesis_header = parent_header;
  chain_state = record {
    canonical_hashes_by_number = [];
    blocks_by_hash = [];
    block_hashes_by_number = [];
    proofs = [];
  };
}

verify-Verdict_example :
    Verdict sample_reth in_order empty_provider rooted_block parent_header sample_witness
      (verify sample_reth in_order empty_provider rooted_block parent_header sample_witness)
verify-Verdict_example =
    verify-Verdict sample_reth in_order empty_provider rooted_block parent_header sample_witness

abbrev revealed : SampleTrie
revealed = record { accounts = (5, 5) ∷ []; storages = λ a. none }

abbrev root_of_update : SampleTrie × ℕ
root_of_update = elim (calculate_state_root sample_tries in_order (sample_update 7) revealed) [
  | ok found ↦ found
  | err e ↦ (revealed, 0)
]

has_root : Computes sample_reth in_order empty_provider rooted_block parent_header sample_witness 14
unfolding verify calculate_state_root insert_sorted update_slot lookup insert remove
has_root = record {
  trie = revealed;
  left = root_of_update.0;
  output = record { state = 7; result = 7 };
  ran = record {
    on_state = record {
      checked = record { header_valid = refl; block_valid = refl; on_parent = refl };
      revealed = refl;
    };
    executed = refl;
  };
  outcome_valid = refl;
  computed = refl;
}

-- The same update with its accounts, storages and slots in the other order, and workers that finish in
-- the other order.
abbrev other_update : HashedPostState
other_update = record {
  accounts =
      (3, some (record { nonce = 0; balance = 4; bytecode_hash = none }))
      ∷ (5, some (record { nonce = 0; balance = 7; bytecode_hash = none }))
      ∷ [];
  storages =
      (3, record { wiped = true; storage = (1, 1) ∷ (2, 0) ∷ [] })
      ∷ (5, record { wiped = false; storage = (1, 2) ∷ [] })
      ∷ [];
}

abbrev swapped : List (Arrival sample_tries) → List (Arrival sample_tries)
swapped [] = []
swapped (x ∷ []) = x ∷ []
swapped (x ∷ y ∷ rest) = y ∷ x ∷ rest

swapped-Reordered : (rs : List (Arrival sample_tries)) → Reordered rs (swapped rs)
swapped-Reordered [] = empty
swapped-Reordered (x ∷ []) = keep x empty
swapped-Reordered (x ∷ y ∷ rest) = swap x y rest

same_update : SameUpdate (sample_update 7) other_update
same_update = record {
  same_accounts = swap _ _ [];
  account_once = (((omega arith), tt), (tt, tt));
  middle = _;
  same_storages = swap _ _ [];
  storage_once = (((omega arith), tt), (tt, tt));
  same_slots = (
    refl,
    refl,
    swap _ _ [],
    (((omega arith), tt), (tt, tt)),
    (refl, refl, keep _ empty, (tt, tt), tt),
  );
}

update_has_root :
    calculate_state_root sample_tries in_order (sample_update 7) revealed ≡ ok root_of_update
unfolding calculate_state_root insert_sorted update_slot lookup insert remove
update_has_root = refl

calculate_state_root-SameUpdate_example :
    calculate_state_root sample_tries swapped other_update revealed ≡ ok root_of_update
calculate_state_root-SameUpdate_example =
    calculate_state_root-SameUpdate sample_tries sample_tries-Apart in_order swapped
      (sample_update 7) other_update revealed Reordered-refl swapped-Reordered same_update
      update_has_root

abbrev code_database : WitnessDatabase sample_reth
code_database = record {
  provider = empty_provider;
  parent = record { number = 0; hash = 10 };
  trie = revealed;
  bytecodes = bytecode_map sample_reth (8 ∷ 9 ∷ []) [];
}

code_by_hash_lem_example :
    ((code : ℕ) × (code_by_hash sample_reth code_database 9 ≡ ok code)
      × (code + 1 ≡ 9)
      × AnyOf (λ bytes. bytes ≡ code) (8 ∷ 9 ∷ []))
    ⊎ ((code_by_hash sample_reth code_database 9 ≡ err tt)
        × All (λ bytes. bytes + 1 ≢ 9) (8 ∷ 9 ∷ []))
code_by_hash_lem_example = code_by_hash_lem sample_reth (8 ∷ 9 ∷ []) code_database 9 refl
