-- ===== src/Launch/Sound.antt =====
-- bin/zk-ress/src/launch.rs: the node from its start on. What the engine stores has been executed.
use zk_ress.Base.{ℕ, ◌≡◌, ◌⊎◌, inl, inr, refl, List, [], none, some, arith}
use zk_ress.Base.Maps.{lookup, insert}
use zk_ress.Buffer.Invariant.{new-IsValid}
use zk_ress.Buffer.Lru.{IsLru}
use zk_ress.ChainState.{insert_canonical_hash, insert_block}
use zk_ress.ChainState.Invariant.{
  default-IsConsistent, insert_block-IsConsistent, insert_canonical_hash-IsConsistent,
}
use zk_ress.Engine
use zk_ress.Engine.{ConsensusEngine}
use zk_ress.Engine.Poll.{Round, poll_round}
use zk_ress.Engine.Sound.{poll_round-IsSound}
use zk_ress.Engine.Sound.Downloads.{TrustsSome}
use zk_ress.Env.{Env, Result, ok, err, VerifierError}
use zk_ress.Evm.{WitnessProvider}
use zk_ress.Launch.{genesis_block, launch_provider, witness_env, launch}
use zk_ress.Primitives.{SealedHeader, Block}
use zk_ress.Provider
use zk_ress.Provider.{ZkRessProvider}
use zk_ress.Results.{error_of}
use zk_ress.Reth.{ExecutionStateWitness, Reth}
use zk_ress.Tree
use zk_ress.Tree.Sound.{Justified, by_trust, by_proof, IsSound}
use zk_ress.Verifier.{verify}
use zk_ress.Verifier.StateRoot.{Arrival}
use zk_ress.Verifier.Verdict.{Computes, Verdict, verify-Verdict}

-- The rounds of an engine: a downloaded finalized block is trusted, and has the number of a stored
-- block of the same hash.
pub data Runs {env : Env} (laws : IsLru env.lru) (trusted : Block env.Body → Type 0)
    (first : ConsensusEngine env) : ConsensusEngine env → Type 1 where
  at_start : Runs laws trusted first first
  and_round :
      {this : ConsensusEngine env} (round : Round env)
      → Runs laws trusted first this
      → TrustsSome laws trusted round.downloaded this.tree
      → Runs laws trusted first (poll_round round this).0

only_genesis :
    {B : Type 0} (P : Type 0) (genesis : SealedHeader) (default_body : B) (h : ℕ) (b : Block B)
    → lookup h (launch_provider {P = P} genesis default_body).chain_state.blocks_by_hash ≡ some b
    → genesis_block genesis default_body ≡ b
unfolding launch_provider Provider.new Provider.insert_block Provider.insert_canonical_hash
    genesis_block insert_canonical_hash insert_block insert lookup
only_genesis P genesis default_body h b e = ground (arith, e)

module _ {env : Env} (laws : IsLru env.lru) (trusted : Block env.Body → Type 0) where
  Runs-IsSound :
      {first this : ConsensusEngine env}
      → IsSound trusted first.tree
      → Runs laws trusted first this
      → IsSound trusted this.tree
  Runs-IsSound sound at_start = sound
  Runs-IsSound sound (and_round {this} round runs safe) =
      poll_round-IsSound laws trusted round this safe (Runs-IsSound sound runs)

  -- A launched engine has the invariant (stored blocks justified, the indices of the chain state and
  -- the collections of the buffer consistent), if the genesis block is trusted.
  launch-IsSound :
      (genesis : SealedHeader) (default_body : env.Body)
      → trusted (genesis_block genesis default_body)
      → IsSound trusted (launch env genesis default_body).tree
  unfolding launch launch_provider Engine.new Tree.new Provider.new Provider.insert_block
      Provider.insert_canonical_hash genesis_block
  launch-IsSound genesis default_body safe = record {
    justified = λ h b e. rw (← only_genesis env.Proof genesis default_body h b e) (by_trust safe);
    consistent = insert_canonical_hash-IsConsistent 0 genesis.hash _ (
        insert_block-IsConsistent (genesis_block genesis default_body) none _ none_before
          default-IsConsistent);
    buffered = new-IsValid laws 256 (omega arith);
  }
    where
      none_before :
          (old : Block env.Body) → lookup genesis.hash [] ≡ some old → old.number ≡ genesis.number
      none_before old e = unfold lookup in cc e

-- The verifier has run the block: for a parent that the provider had under the block's parent hash,
-- and a witness, the block passes the checks, its transactions run on the state that the witness
-- reveals under the parent's state root, and the root of the changed state is the block's state root.
pub record Executed {Body Error : Type 0} (reth : Reth Body Error)
    (arrivals : List (Arrival reth.tries) → List (Arrival reth.tries)) (block : Block Body)
    : Type 0 where
  pub known : WitnessProvider reth
  pub parent : SealedHeader
  pub proof : ExecutionStateWitness reth.Bytes
  pub is_parent : Provider.sealed_header known block.parent_hash ≡ some parent
  pub has_root : Computes reth arrivals known block parent proof block.state_root

module _ (env : Env) (reth : Reth env.Body env.Error)
    (arrivals : List (Arrival reth.tries) → List (Arrival reth.tries)) where
  Justified-Executed :
      (trusted : Block env.Body → Type 0) (block : Block env.Body)
      → Justified (witness_env env reth arrivals) trusted block
      → trusted block ⊎ Executed reth arrivals block
  Justified-Executed trusted block (by_trust safe) = inl safe
  Justified-Executed trusted block (by_proof known parent proof valid is_parent verified) =
      inr (record {
        known = known;
        parent = parent;
        proof = proof;
        is_parent = is_parent;
        has_root =
            by_verdict (verify reth arrivals known block parent proof) verified
              (verify-Verdict reth arrivals known block parent proof);
      })
    where
      by_verdict :
          (r : Result (Unit {0}) (VerifierError env.Error))
          → error_of r ≡ none
          → Verdict reth arrivals known block parent proof r
          → Computes reth arrivals known block parent proof block.state_root
      by_verdict (ok done) passed computes = computes
      by_verdict (err e) passed cause = cc

  -- With an LruMap that keeps its documented laws, after any rounds of the engine that launch sets
  -- up over the verifier of execution witnesses, whatever they find, each stored block is the
  -- genesis block, a block trusted as finalized, or one that the verifier has run with a witness
  -- on the state of its parent and whose state root is the root computed from the execution, if
  -- each downloaded finalized block is trusted and has the number of a stored block of the same
  -- hash.
  pub launch-Executed :
      (laws : IsLru env.lru) (finalized : Block env.Body → Type 0) (genesis : SealedHeader)
      (default_body : env.Body) {this : ConsensusEngine (witness_env env reth arrivals)} (h : ℕ)
      (block : Block env.Body)
      → Runs {env = witness_env env reth arrivals} laws
          (λ b. (b ≡ genesis_block genesis default_body) ⊎ finalized b)
          (launch (witness_env env reth arrivals) genesis default_body)
          this
      → lookup h this.tree.provider.chain_state.blocks_by_hash ≡ some block
      → (block ≡ genesis_block genesis default_body)
        ⊎ finalized block
        ⊎ Executed reth arrivals block
  launch-Executed laws finalized genesis default_body h block runs stored =
      let first =
        launch-IsSound {env = witness_env env reth arrivals} laws
          (λ b. (b ≡ genesis_block genesis default_body) ⊎ finalized b) genesis default_body
          (inl refl) in
      let sound =
        Runs-IsSound {env = witness_env env reth arrivals} laws
          (λ b. (b ≡ genesis_block genesis default_body) ⊎ finalized b) first runs in
      elim (Justified-Executed (λ b. (b ≡ genesis_block genesis default_body) ⊎ finalized b) block
        (sound.justified h block stored)) [
          | inl (inl is_genesis) ↦ inl is_genesis
          | inl (inr is_finalized) ↦ inr (inl is_finalized)
          | inr executed ↦ inr (inr executed)
        ]
