-- ===== src/Verifier.antt =====
-- crates/verifier/src/lib.rs: `ExecutionWitnessVerifier`. The checks of the consensus are operations of
-- `Reth`, and the provider is given as the engine has it. The log lines and times are left out.
pub mod StateRoot
pub mod Sorting
pub mod Arrivals
pub mod Order
pub mod Codes
pub mod Verdict
use zk_ress.Base.{ℕ, List, [], ◌∷◌, Option, none, some, ◌==◌, if◌then◌else◌}
use zk_ress.Base.Maps.{Map, insert}
use zk_ress.Env.{Result, ok, err, VerifierError, consensus, execution, provider}
use zk_ress.Evm.{WitnessProvider, executor_new, execute}
use zk_ress.Primitives.{SealedHeader, Block, parent_num_hash}
use zk_ress.Results.{◌>>=◌, ◌>>◌, map_err, passes}
use zk_ress.Reth.{ExecutionStateWitness, Reth}
use zk_ress.Verifier.StateRoot.{Arrival, calculate_state_root}

module _ {Body Error : Type 0} (reth : Reth Body Error) where
  -- The map of the witness: each encoded node under its hash.
  unfoldable pub state_witness : List reth.Bytes → Map reth.Bytes → Map reth.Bytes
  state_witness [] nodes = nodes
  state_witness (encoded ∷ rest) nodes =
      state_witness rest (insert (reth.keccak256 encoded) encoded nodes)

  -- The map of the bytecodes: each under its own hash.
  unfoldable pub bytecode_map : List reth.Bytes → Map reth.Bytecode → Map reth.Bytecode
  bytecode_map [] codes = codes
  bytecode_map (bytes ∷ rest) codes =
      let bytecode = reth.new_raw bytes in
      bytecode_map rest (insert (reth.hash_slow bytecode) bytecode codes)

  -- The checks before the execution.
  unfoldable pub validate_before :
      Block Body → SealedHeader → Result (Unit {0}) (VerifierError Error)
  validate_before block parent = do
    map_err consensus (passes (reth.validate_header block.header))
    map_err consensus (passes (reth.validate_block_pre_execution block))
    map_err consensus (passes (reth.validate_header_against_parent block.header parent))

  unfoldable pub verify :
      (List (Arrival reth.tries) → List (Arrival reth.tries))
      → WitnessProvider reth
      → Block Body
      → SealedHeader
      → ExecutionStateWitness reth.Bytes
      → Result (Unit {0}) (VerifierError Error)
  unfolding validate_before state_witness bytecode_map executor_new execute calculate_state_root
  verify arrivals known block parent proof = do
    validate_before block parent
    let nodes = state_witness proof.state []
    trie ←
        map_err (λ e. provider (reth.trie_witness_error e))
          (reth.reveal_witness parent.state_root nodes reth.trie_new)
    let executor =
        executor_new reth known (parent_num_hash block.header) trie
          (bytecode_map proof.bytecodes [])
    output ← map_err execution (execute reth block executor)
    map_err consensus (passes (reth.validate_block_post_execution block output.result))
    (trie', state_root) ←
        map_err (λ e. provider (reth.trie_witness_error e))
          (calculate_state_root reth.tries arrivals (reth.from_bundle_state output.state) trie)
    if state_root == block.state_root
        then ok tt
        else err (consensus (reth.body_state_root_diff state_root block.state_root))
