-- ===== src/Buffer/Descendants.antt =====
-- crates/engine/src/tree/block_buffer.rs: the operations that walk `parent_to_child`. A `Vec` used as
-- a stack is a list whose head is its top.
use zk_ress.Base.{ℕ, zero, suc, ◌+◌, List, [], ◌∷◌, ◌++◌, Option, none, some, length}
use zk_ress.Base.Maps.{lookup, remove}
use zk_ress.Primitives.{Block}
use zk_ress.Buffer.{BlockBuffer, remove_block, evict_block, total, pop_until}
use zk_ress.Buffer.Lru.{LruMap}

-- `stack.extend(children)`: the last child comes to the top.
unfoldable pub extend : List ℕ → List ℕ → List ℕ
extend [] stack = stack
extend (c ∷ cs) stack = extend cs (c ∷ stack)

abbrev pub to_list {ℓ} : {A : Type ℓ} → Option A → List A
to_list none = []
to_list (some a) = a ∷ []

module _ {M : LruMap} {B T : Type 0} where
  -- The inner loop of `remove_children`: the children with a block and a proof are taken out.
  unfoldable pub remove_each : List ℕ → BlockBuffer M B T → BlockBuffer M B T × List (Block B × T)
  remove_each [] this = (this, [])
  remove_each (c ∷ cs) this =
      let (next, removed) = remove_block c this in
      let (after, more) = remove_each cs next in (after, to_list removed ++ more)

  -- The inner loop of `evict_children`.
  unfoldable pub evict_each : List ℕ → BlockBuffer M B T → BlockBuffer M B T
  evict_each [] this = this
  evict_each (c ∷ cs) this = evict_each cs (evict_block c this).0

  abbrev pub unlink : ℕ → BlockBuffer M B T → BlockBuffer M B T
  unlink parent_hash this = record this {
    parent_to_child = remove parent_hash this.parent_to_child;
  }

  -- The loop of `remove_children`, on fuel.
  unfoldable pub remove_loop :
      ℕ → List ℕ → BlockBuffer M B T → BlockBuffer M B T × List (Block B × T)
  unfolding extend remove_each
  remove_loop zero stack this = (this, [])
  remove_loop (suc fuel) [] this = (this, [])
  remove_loop (suc fuel) (parent_hash ∷ stack) this =
      elim (lookup parent_hash this.parent_to_child) [
        | none ↦ remove_loop fuel stack this
        | some children ↦
            let (next, removed) = remove_each children (unlink parent_hash this) in
            let (after, more) = remove_loop fuel (extend children stack) next in
            (after, removed ++ more)
      ]

  -- The loop of `evict_children`, on fuel.
  unfoldable pub evict_loop : ℕ → List ℕ → BlockBuffer M B T → BlockBuffer M B T
  unfolding extend evict_each
  evict_loop zero stack this = this
  evict_loop (suc fuel) [] this = this
  evict_loop (suc fuel) (parent_hash ∷ stack) this =
      elim (lookup parent_hash this.parent_to_child) [
        | none ↦ evict_loop fuel stack this
        | some children ↦
            evict_loop fuel (extend children stack) (evict_each children (unlink parent_hash this))
      ]

  -- Each round takes a hash off the stack, and puts there only hashes that it takes out of the map.
  unfoldable pub work : List ℕ → BlockBuffer M B T → ℕ
  unfolding total
  work stack this = length stack + total this.parent_to_child

  unfoldable pub remove_children :
      List ℕ → BlockBuffer M B T → BlockBuffer M B T × List (Block B × T)
  unfolding remove_loop work
  remove_children parent_hashes this = remove_loop (work parent_hashes this) parent_hashes this

  unfoldable pub evict_children : List ℕ → BlockBuffer M B T → BlockBuffer M B T
  unfolding evict_loop work
  evict_children parent_hashes this = evict_loop (work parent_hashes this) parent_hashes this

  unfoldable pub remove_block_with_children :
      ℕ → BlockBuffer M B T → BlockBuffer M B T × List (Block B × T)
  unfolding remove_children
  remove_block_with_children parent_hash this =
      let (next, removed) = remove_block parent_hash this in
      let (after, more) = remove_children (parent_hash ∷ []) next in
      (after, to_list removed ++ more)

  -- The hashes go on the stack of `evict_children` as the `Vec` that they were gathered in, whose last
  -- entry is its top.
  unfoldable pub evict_old_blocks : ℕ → BlockBuffer M B T → BlockBuffer M B T
  unfolding evict_each evict_children pop_until extend
  evict_old_blocks block_number this =
      let (hashes, left) = pop_until block_number this.earliest_blocks in
      evict_children (extend hashes []) (evict_each hashes (record this { earliest_blocks = left }))
