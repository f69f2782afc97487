-- ===== src/Verifier/Verdict.antt =====
-- crates/verifier/src/lib.rs: which blocks `ExecutionWitnessVerifier::verify` accepts, and with what error
-- it turns down the others.
use zk_ress.Base.{
  ℕ, ◌≡◌, ◌≢◌, ◌⊎◌, inl, inr, refl, List, [], none, some, Option-cases, subst, arith, ◌==◌,
  Bool-cases, if◌then◌else◌,
}
use zk_ress.Env.{Result, ok, err, VerifierError, consensus, execution, provider}
use zk_ress.Evm.{WitnessProvider, BlockExecutor, executor_new, execute}
use zk_ress.Primitives.{SealedHeader, Block, parent_num_hash}
use zk_ress.Results.{◌>>=◌, ◌>>◌, map_err, passes, Result-cases}
use zk_ress.Reth.{ExecutionStateWitness, BlockExecutionOutput, Reth}
use zk_ress.Verifier.{state_witness, bytecode_map, validate_before, verify}
use zk_ress.Verifier.StateRoot.{Arrival, calculate_state_root}

module _ {Body Error : Type 0} (reth : Reth Body Error)
    (arrivals : List (Arrival reth.tries) → List (Arrival reth.tries))
    (known : WitnessProvider reth) (block : Block Body) (parent : SealedHeader)
    (proof : ExecutionStateWitness reth.Bytes) where
  abbrev pub executor : reth.Trie → BlockExecutor reth
  executor trie =
      executor_new reth known (parent_num_hash block.header) trie
        (bytecode_map reth proof.bytecodes [])

  -- The consensus takes the header, the block, and the header on its parent.
  pub record PassesChecks : Type 0 where
    pub header_valid : reth.validate_header block.header ≡ none
    pub block_valid : reth.validate_block_pre_execution block ≡ none
    pub on_parent : reth.validate_header_against_parent block.header parent ≡ none

  -- The witness reveals the parent's state.
  pub record Reveals (trie : reth.Trie) : Type 0 where
    pub checked : PassesChecks
    pub revealed :
        reth.reveal_witness parent.state_root (state_witness reth proof.state []) reth.trie_new
        ≡ ok trie

  -- The transactions run on that state.
  pub record Executes (trie : reth.Trie) (output : BlockExecutionOutput reth.Bundle reth.Outcome)
      : Type 0 where
    pub on_state : Reveals trie
    pub executed : execute reth block (executor trie) ≡ ok output

  -- The consensus takes what they give, and a root of the changed state is found.
  pub record Computes (state_root : ℕ) : Type 0 where
    pub trie : reth.Trie
    pub left : reth.Trie
    pub output : BlockExecutionOutput reth.Bundle reth.Outcome
    pub ran : Executes trie output
    pub outcome_valid : reth.validate_block_post_execution block output.result ≡ none
    pub computed :
        calculate_state_root reth.tries arrivals (reth.from_bundle_state output.state) trie
        ≡ ok (left, state_root)

  -- What is behind an error, by the kind of the error.
  abbrev pub Cause : VerifierError Error → Type 0
  Cause (consensus e) =
      (reth.validate_header block.header ≡ some e)
      ⊎ (reth.validate_block_pre_execution block ≡ some e)
      ⊎ (reth.validate_header_against_parent block.header parent ≡ some e)
      ⊎ ((trie : reth.Trie) × (output : BlockExecutionOutput reth.Bundle reth.Outcome) × Executes
            trie output
          × (reth.validate_block_post_execution block output.result ≡ some e))
      ⊎ ((root : ℕ) × Computes root
          × (root ≢ block.state_root)
          × (e ≡ reth.body_state_root_diff root block.state_root))
  Cause (execution e) =
      (trie : reth.Trie) × Reveals trie × (execute reth block (executor trie) ≡ err e)
  Cause (provider e) =
      (f : reth.TrieError) × (e ≡ reth.trie_witness_error f)
      × ((PassesChecks
            × (reth.reveal_witness parent.state_root (state_witness reth proof.state [])
                  reth.trie_new
                ≡ err f))
          ⊎ ((trie : reth.Trie) × (output : BlockExecutionOutput reth.Bundle reth.Outcome)
              × Executes trie output
              × (calculate_state_root reth.tries arrivals (reth.from_bundle_state output.state) trie
                  ≡ err f)))
  Cause (VerifierError.other e) = ⊥

  abbrev pub Verdict : Result (Unit {0}) (VerifierError Error) → Type 0
  Verdict (ok done) = Computes block.state_root
  Verdict (err e) = Cause e

  -- What `verify` still does once the block has run.
  abbrev conclude :
      reth.Trie
      → BlockExecutionOutput reth.Bundle reth.Outcome
      → Result (Unit {0}) (VerifierError Error)
  conclude trie output =
      map_err consensus (passes (reth.validate_block_post_execution block output.result))
      >> (map_err (λ e. provider (reth.trie_witness_error e))
            (calculate_state_root reth.tries arrivals (reth.from_bundle_state output.state) trie)
          >>= λ found.
              if found.1 == block.state_root
              then ok tt
              else err (consensus (reth.body_state_root_diff found.1 block.state_root)))

  -- What it does once the trie is revealed, and once the checks have passed.
  abbrev run : reth.Trie → Result (Unit {0}) (VerifierError Error)
  run trie = map_err execution (execute reth block (executor trie)) >>= conclude trie

  abbrev reveal : Result (Unit {0}) (VerifierError Error)
  reveal =
      map_err (λ e. provider (reth.trie_witness_error e))
        (reth.reveal_witness parent.state_root (state_witness reth proof.state []) reth.trie_new)
      >>= run

  verify_stages :
      verify reth arrivals known block parent proof ≡ (validate_before reth block parent >> reveal)
  unfolding verify
  verify_stages = refl

  abbrev root_of :
      reth.Trie
      → BlockExecutionOutput reth.Bundle reth.Outcome
      → Result (reth.Trie × ℕ) reth.TrieError
  root_of trie output =
      calculate_state_root reth.tries arrivals (reth.from_bundle_state output.state) trie

  conclude-Verdict :
      (trie : reth.Trie) (output : BlockExecutionOutput reth.Bundle reth.Outcome)
      → Executes trie output
      → Verdict (conclude trie output)
  conclude-Verdict trie output ran =
      elim (Option-cases (reth.validate_block_post_execution block output.result)) [
        | inr (e, refused) ↦ rw (refused) (inr (inr (inr (inl (trie, output, ran, refused)))))
        | inl accepted ↦ elim (Result-cases (root_of trie output)) [
          | inr (f, failed) ↦ rw (accepted, failed) (f, refl, inr (trie, output, ran, failed))
          | inl ((left, root), computed) ↦
              let done = with_root left root computed accepted in
              elim (Bool-cases (root == block.state_root)) [
                | inl same ↦ rw (accepted, computed, same) (subst Computes (ground arith) done)
                | inr other ↦
                    rw (accepted, computed, other)
                      (inr (inr (inr (inr (root, done, ground arith, refl)))))
              ]
        ]
      ]
    where
      with_root :
          (left : reth.Trie) (root : ℕ)
          → root_of trie output ≡ ok (left, root)
          → reth.validate_block_post_execution block output.result ≡ none
          → Computes root
      with_root left root computed accepted = record {
        trie = trie;
        left = left;
        output = output;
        ran = ran;
        outcome_valid = accepted;
        computed = computed;
      }

  run-Verdict : (trie : reth.Trie) → Reveals trie → Verdict (run trie)
  run-Verdict trie on_state = elim (Result-cases (execute reth block (executor trie))) [
    | inr (e, failed) ↦ rw (failed) (trie, on_state, failed)
    | inl (output, executed) ↦
        rw (executed)
          (conclude-Verdict trie output (record { on_state = on_state; executed = executed }))
  ]

  reveal-Verdict : PassesChecks → Verdict reveal
  reveal-Verdict checked =
      elim (Result-cases
        (reth.reveal_witness parent.state_root (state_witness reth proof.state []) reth.trie_new)) [
          | inr (f, failed) ↦ rw (failed) (f, refl, inl (checked, failed))
          | inl (trie, revealed) ↦
              rw (revealed) (run-Verdict trie (record { checked = checked; revealed = revealed }))
        ]

  -- Verify accepts a block only if it passes the checks of the consensus, its transactions run on
  -- the state that the witness reveals under the state root of the parent, the consensus takes
  -- what they give, and the root computed from the changed state is the state root of the block;
  -- each error has the kind of a step that failed after those before it passed, and names the two
  -- roots if only they differ; no error is of the kind other.
  pub verify-Verdict : Verdict (verify reth arrivals known block parent proof)
  unfolding validate_before
  verify-Verdict = elim (Option-cases (reth.validate_header block.header)) [
    | inr (e, refused) ↦ rw (verify_stages, refused) (inl refused)
    | inl header ↦ elim (Option-cases (reth.validate_block_pre_execution block)) [
      | inr (e, refused) ↦ rw (verify_stages, header, refused) (inr (inl refused))
      | inl body ↦ elim (Option-cases (reth.validate_header_against_parent block.header parent)) [
        | inr (e, refused) ↦ rw (verify_stages, header, body, refused) (inr (inr (inl refused)))
        | inl on_parent ↦
            rw (verify_stages, header, body, on_parent)
              (reveal-Verdict
                (record { header_valid = header; block_valid = body; on_parent = on_parent }))
      ]
    ]
  ]
