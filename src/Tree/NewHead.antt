-- ===== src/Tree/NewHead.antt =====
-- crates/engine/src/tree/mod.rs: finding the chain to a new head, and making it canonical.
-- A `Vec` of headers that grows by `push` is a list that grows at its head, so the `reverse` at the
-- end of `on_new_head` changes nothing here: the lists are oldest header first.
pub mod Chains
pub mod Tips
pub mod Canonical
pub mod Fuel
pub mod Finds
pub mod Fork
use zk_ress.Base.{
  ℕ, zero, suc, ◌-◌, Bool, true, false, List, [], ◌∷◌, Option, none, some, ◌==◌, leb, if◌then◌else◌,
  last?, length,
}
use zk_ress.Env.{Env}
use zk_ress.Primitives.{NumHash, SealedHeader, num_hash}
use zk_ress.Provider
use zk_ress.Provider.{ZkRessProvider}
use zk_ress.Tree.{EngineTree, canonical_chain_committed, emit_event, set_canonical_head}

-- `NewCanonicalChain`
pub data NewCanonicalChain : Type 0 where
  commit : List SealedHeader → NewCanonicalChain
  reorg : (added removed : List SealedHeader) → NewCanonicalChain

abbrev pub added_blocks : NewCanonicalChain → List SealedHeader
added_blocks (commit added) = added
added_blocks (reorg added removed) = added

abbrev pub removed_blocks : NewCanonicalChain → List SealedHeader
removed_blocks (commit added) = []
removed_blocks (reorg added removed) = removed

-- `tip`; the source panics on an empty chain, here `none`.
unfoldable pub tip : NewCanonicalChain → Option SealedHeader
tip update = last? (added_blocks update)

infixl 5 ◌>>=◌
abbrev pub ◌>>=◌ {ℓ κ} : {A : Type ℓ} {B : Type κ} → Option A → (A → Option B) → Option B
none >>= f = none
some a >>= f = f a

module _ {B P : Type 0} where
  -- A `while` loop of `on_new_head` that walks one chain back, a number at a time: the hash where it
  -- stops, and the headers passed.
  unfoldable pub walk_back :
      ZkRessProvider B P → ℕ → ℕ → List SealedHeader → Option (ℕ × List SealedHeader)
  walk_back p zero hash chain = some (hash, chain)
  walk_back p (suc rounds) hash chain = elim (Provider.sealed_header p hash) [
    | none ↦ none
    | some header ↦ walk_back p rounds header.parent_hash (header ∷ chain)
  ]

  -- The last loop of `on_new_head`: both chains walk back until they meet.
  unfoldable pub meet :
      ZkRessProvider B P
      → ℕ
      → ℕ
      → ℕ
      → List SealedHeader
      → List SealedHeader
      → Option (List SealedHeader × List SealedHeader)
  meet p zero old_hash current_hash old_chain new_chain =
      if old_hash == current_hash then some (new_chain, old_chain) else none
  meet p (suc fuel) old_hash current_hash old_chain new_chain =
      if old_hash == current_hash then some (new_chain, old_chain) else (do
        old ← Provider.sealed_header p old_hash
        current ← Provider.sealed_header p current_hash
        meet p fuel old.parent_hash current.parent_hash (old ∷ old_chain) (current ∷ new_chain))

  -- The part of `on_new_head` behind the test for an extension of the canonical chain.
  unfoldable pub find_fork :
      ZkRessProvider B P → NumHash → ℕ → ℕ → List SealedHeader → Option NewCanonicalChain
  unfolding walk_back meet
  find_fork p canonical_head current_number current_hash new_chain = do
    (old_hash, old_chain) ←
        walk_back p (canonical_head.number - current_number) canonical_head.hash []
    (added, removed) ←
        meet p (length p.chain_state.blocks_by_hash) old_hash current_hash old_chain new_chain
    some (reorg added removed)

  -- The numbers count the rounds of the two walks; `-` is 0 where the source makes no round.
  unfoldable pub on_new_head : ZkRessProvider B P → NumHash → ℕ → Option NewCanonicalChain
  unfolding walk_back find_fork
  on_new_head p canonical_head new_head = do
    head ← Provider.sealed_header p new_head
    (current_hash, new_chain) ←
        walk_back p (head.parent_number - canonical_head.number) head.parent_hash (head ∷ [])
    if current_hash == canonical_head.hash
        then some (commit new_chain)
        else find_fork p canonical_head head.parent_number current_hash new_chain

  unfoldable pub fork_loop : ZkRessProvider B P → NumHash → ℕ → ℕ → Bool
  fork_loop p head zero current_hash = true
  fork_loop p head (suc fuel) current_hash = elim (Provider.sealed_header p current_hash) [
    | none ↦ true
    | some current ↦
        if current.hash == head.hash
        then false
        else if leb current.number head.number
        then true
        else fork_loop p head fuel current.parent_hash
  ]

  unfoldable pub is_fork : ZkRessProvider B P → NumHash → ℕ → Bool
  unfolding fork_loop
  is_fork p head target_hash = fork_loop p head (length p.chain_state.blocks_by_hash) target_hash

module _ {env : Env} where
  unfoldable pub apply_chain_update :
      NewCanonicalChain → SealedHeader → EngineTree env → EngineTree env
  unfolding Provider.on_chain_update emit_event set_canonical_head
  apply_chain_update update head tree =
      emit_event (canonical_chain_committed head)
        (record (set_canonical_head (num_hash head) tree) {
          provider =
              Provider.on_chain_update (added_blocks update) (removed_blocks update) tree.provider;
        })

  -- No update that `on_new_head` returns is empty (`on_new_head-tip` of Tree/NewHead/Tips.antt), so
  -- the panic of `tip` is not reached; it would leave the tree as it is.
  unfoldable pub on_canonical_chain_update : NewCanonicalChain → EngineTree env → EngineTree env
  unfolding tip apply_chain_update
  on_canonical_chain_update update tree = elim (tip update) [
    | none ↦ tree
    | some head ↦ apply_chain_update update head tree
  ]

  unfoldable pub make_canonical : ℕ → EngineTree env → EngineTree env
  unfolding on_new_head on_canonical_chain_update
  make_canonical target tree = elim (on_new_head tree.provider tree.canonical_head target) [
    | none ↦ tree
    | some chain_update ↦ on_canonical_chain_update chain_update tree
  ]
