-- ===== src/Examples/Trees.antt =====
-- Runs of the tree in the sample environment.
use zk_ress.Base.{ℕ, ◌≡◌, ◌≤◌, ◌⊎◌, ◌↔◌, refl, false, [], ◌∷◌, none, some, arith}
use zk_ress.Base.Maps.{lookup}
use zk_ress.Examples.ChainStates.{two_stored-IsConsistent, two_stored-IsAcyclic}
use zk_ress.Examples.Lru.{list_lru-IsLru}
use zk_ress.Examples.Samples.{
  first_block, second_block, third_block, two_provider, two_stored, header_at, sample_env,
}
use zk_ress.Buffer
use zk_ress.Buffer.Invariant.{new-IsValid}
use zk_ress.Primitives.{NumHash, SealedHeader, Block}
use zk_ress.Provider
use zk_ress.Tree.{EngineTree, stored}
use zk_ress.Tree.Forkchoice.{on_forkchoice_updated}
use zk_ress.Tree.Insert.{insert_block}
use zk_ress.Tree.NewHead.{NewCanonicalChain, commit, on_new_head, make_canonical}
use zk_ress.Tree.NewHead.{is_fork}
use zk_ress.Tree.NewHead.Finds.{on_new_head-finds}
use zk_ress.Tree.NewHead.Fork.{IsRising, is_fork_lem}
use zk_ress.Blocks.{Leads, here, up}
use zk_ress.Tree.NewHead.Canonical.{MadeCanonical, make_canonical_lem}
use zk_ress.Tree.NewHead.Chains.{Updates, on_new_head_lem, on_new_head_extends}
use zk_ress.Tree.Payload.{on_new_payload}
use zk_ress.Tree.Sound.Status.{Claims, IsKnown, on_forkchoice_updated-Claims}
use zk_ress.Tree.Sound.{Justified, by_trust, IsSound}
use zk_ress.Tree.Sound.Handlers.{on_new_payload-IsSound, on_forkchoice_updated-IsSound}
use zk_ress.Tree.Sound.Payloads.{PayloadVerified, on_new_payload-Claims}
use zk_ress.Tree.Sound.Verified.{PayloadClaims}
use zk_ress.Tree.Sound.Insert.{Accepted, insert_block-Accepted}

-- The stored blocks of the sample are trusted; the canonical head is the first of them.
abbrev pub sample_tree : EngineTree sample_env
sample_tree = record {
  provider = two_provider;
  canonical_head = record { number = 1; hash = 11 };
  forkchoice_state_tracker = none;
  block_buffer = record {
    blocks = [];
    proofs = [];
    parent_to_child = [];
    earliest_blocks = [];
    lru = record { limit = 3; keys = []; distinct = tt };
  };
  invalid_headers = tt;
  events = [];
}

abbrev pub Low : Block Unit → Type 0
Low block = block.number ≤ 2

pub sample_tree-IsSound : IsSound Low sample_tree
unfolding Buffer.new
sample_tree-IsSound = record {
  justified = stored_low;
  consistent = two_stored-IsConsistent;
  buffered = new-IsValid list_lru-IsLru 3 (omega arith);
}
  where
    stored_low :
        (h : ℕ) (b : Block Unit)
        → lookup h two_provider.chain_state.blocks_by_hash ≡ some b
        → Justified sample_env Low b
    stored_low h b e = by_trust (unfold lookup in ground (arith, e))

insert_block-Accepted_example :
    ((insert_block third_block (some 7) sample_tree).0.provider ≡ two_provider)
    ⊎ Accepted third_block (some 7) sample_tree (insert_block third_block (some 7) sample_tree)
insert_block-Accepted_example = insert_block-Accepted third_block (some 7) sample_tree

on_new_payload-Claims_example :
    PayloadClaims
      (PayloadVerified third_block (some 7) sample_tree)
      (on_new_payload third_block (some 7) sample_tree).1
on_new_payload-Claims_example = on_new_payload-Claims third_block (some 7) sample_tree (λ error. tt)

on_new_payload-IsSound_example : IsSound Low (on_new_payload third_block (some 7) sample_tree).0
on_new_payload-IsSound_example =
    on_new_payload-IsSound list_lru-IsLru Low third_block (some 7) sample_tree sample_tree-IsSound

on_forkchoice_updated-IsSound_example :
    IsSound Low
      (on_forkchoice_updated
        (record { head_block_hash = 12; safe_block_hash = 11; finalized_block_hash = 11 })
        none
        tt
        sample_tree).0
on_forkchoice_updated-IsSound_example =
    on_forkchoice_updated-IsSound list_lru-IsLru Low
      (record { head_block_hash = 12; safe_block_hash = 11; finalized_block_hash = 11 }) none tt
      sample_tree sample_tree-IsSound

make_canonical_lem_example :
    ((on_new_head two_provider sample_tree.canonical_head 12 ≡ none)
      × (make_canonical 12 sample_tree ≡ sample_tree))
    ⊎ ((update : NewCanonicalChain) × (t : SealedHeader) × (stored sample_tree 12 ≡ some t)
        × Updates two_provider sample_tree.canonical_head 12 update
        × MadeCanonical update t sample_tree (make_canonical 12 sample_tree))
make_canonical_lem_example = make_canonical_lem sample_tree 12

second_committed :
    on_new_head two_provider (record { number = 1; hash = 11 }) 12
    ≡ some (commit (header_at 12 2 11 1 ∷ []))
unfolding on_new_head Provider.sealed_header lookup
second_committed = refl

on_new_head_lem_example :
    Updates two_provider (record { number = 1; hash = 11 }) 12 (commit (header_at 12 2 11 1 ∷ []))
on_new_head_lem_example =
    on_new_head_lem two_provider (record { number = 1; hash = 11 }) 12
      (commit (header_at 12 2 11 1 ∷ [])) second_committed

second_header_stored : Provider.sealed_header two_provider 12 ≡ some (header_at 12 2 11 1)
second_header_stored = unfold Provider.sealed_header in unfold lookup in refl

on_new_head_extends_example :
    on_new_head two_provider (record { number = 1; hash = 11 }) 12
    ≡ some (commit (header_at 12 2 11 1 ∷ []))
on_new_head_extends_example =
    on_new_head_extends two_provider (record { number = 1; hash = 11 }) 12 (header_at 12 2 11 1)
      (header_at 12 2 11 1 ∷ []) second_header_stored (12, second_header_stored, refl, refl) refl

abbrev first_head : NumHash
first_head = record { number = 1; hash = 11 }

one_step : Leads two_stored.blocks_by_hash 1 11 10
unfolding lookup
one_step = up first_block refl here

-- From the parent of block 12, and from the head, one step leads to block 10.
on_new_head-finds_example :
    (update : NewCanonicalChain) × (on_new_head two_provider first_head 12 ≡ some update)
on_new_head-finds_example =
    on_new_head-finds two_provider (λ h. h) first_head 12 10 1 1 second_block two_stored-IsAcyclic
      (unfold lookup in refl) one_step one_step (omega arith)

is_fork_lem_example :
    (is_fork two_provider first_head 12 ≡ false)
    ↔ ((steps : ℕ) × Leads two_stored.blocks_by_hash steps 12 11)
is_fork_lem_example =
    is_fork_lem two_provider first_head first_block two_stored-IsConsistent (unfold lookup in refl)
      refl (λ h. h) 12 two_stored-IsAcyclic rising
  where
    rising : IsRising two_stored.blocks_by_hash
    rising h b parent e f = unfold lookup in ground (arith, e, f)

on_forkchoice_updated-Claims_example :
    Claims
      (IsKnown sample_tree 12)
      (on_forkchoice_updated
        (record { head_block_hash = 12; safe_block_hash = 11; finalized_block_hash = 11 })
        none
        tt
        sample_tree).1
on_forkchoice_updated-Claims_example =
    on_forkchoice_updated-Claims
      (record { head_block_hash = 12; safe_block_hash = 11; finalized_block_hash = 11 }) none tt
      sample_tree
