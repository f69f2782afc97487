-- ===== src/Tree/Sound/Connect.antt =====
-- crates/engine/src/tree/mod.rs: the invariant through `try_connect_buffered_blocks`.
use zk_ress.Base.{ℕ, Bool, true, false, List, [], ◌∷◌, some, Option-cases, inl, inr, if◌then◌else◌}
use zk_ress.Buffer.Descendants.{remove_block_with_children}
use zk_ress.Buffer.Drain.{remove_block_with_children-IsValid}
use zk_ress.Buffer.Lru.{IsLru}
use zk_ress.Env.{Env, Result, ok, err, InsertBlockErrorKind}
use zk_ress.Primitives.{Block}
use zk_ress.Tree.{EngineTree, InsertPayloadOk}
use zk_ress.Tree.Insert.{
  insert_block, after_insert, connect_block, connect_blocks, try_connect_buffered_blocks,
}
use zk_ress.Tree.Invalid.{on_insert_block_error}
use zk_ress.Tree.NewHead.{make_canonical}
use zk_ress.Tree.Sound.{
  IsSound, KeepsStores-IsSound, on_insert_block_error-KeepsStores, make_canonical-IsSound,
}
use zk_ress.Tree.Sound.Insert.{insert_block-IsSound}

module _ {env : Env} (laws : IsLru env.lru) (trusted : Block env.Body → Type 0) where
  if-IsSound :
      (c : Bool) (x y : EngineTree env)
      → IsSound trusted x
      → IsSound trusted y
      → IsSound trusted (if c then x else y)
  if-IsSound true x y v w = v
  if-IsSound false x y v w = w

  after_insert-IsSound :
      (child : Block env.Body) (result : Result InsertPayloadOk (InsertBlockErrorKind env.Error))
      (tree : EngineTree env)
      → IsSound trusted tree
      → IsSound trusted (after_insert child result tree).0
  unfolding after_insert
  after_insert-IsSound child (ok status) tree v =
      if-IsSound _ (make_canonical child.hash tree) tree
        (make_canonical-IsSound laws trusted child.hash tree v) v
  after_insert-IsSound child (err kind) tree v =
      KeepsStores-IsSound laws trusted tree (on_insert_block_error child kind tree).0
        (on_insert_block_error-KeepsStores child kind tree) v

  connect_block-IsSound :
      (child : Block env.Body) (p : env.Proof) (tree : EngineTree env)
      → IsSound trusted tree
      → IsSound trusted (connect_block child p tree).0
  unfolding connect_block
  connect_block-IsSound child p tree v =
      let (after, result) = insert_block child (some p) tree in
      after_insert-IsSound child result after
        (insert_block-IsSound laws trusted child (some p) tree v)

  connect_blocks-IsSound :
      (blocks : List (Block env.Body × env.Proof)) (tree : EngineTree env)
      → IsSound trusted tree
      → IsSound trusted (connect_blocks blocks tree).0
  unfolding connect_blocks
  connect_blocks-IsSound [] tree v = v
  connect_blocks-IsSound ((child, p) ∷ blocks) tree v =
      let w = connect_block-IsSound child p tree v in
      elim (Option-cases (connect_block child p tree).1) [
        | inl went ↦
            rw (went, connect_blocks)
              (connect_blocks-IsSound blocks (connect_block child p tree).0 w)
        | inr (fatal, failed) ↦ rw (failed, connect_blocks) w
      ]

  pub try_connect_buffered_blocks-IsSound :
      (hash : ℕ) (tree : EngineTree env)
      → IsSound trusted tree
      → IsSound trusted (try_connect_buffered_blocks hash tree).0
  unfolding try_connect_buffered_blocks
  try_connect_buffered_blocks-IsSound hash tree v =
      let (buffer, blocks) = remove_block_with_children hash tree.block_buffer in
      connect_blocks-IsSound blocks (record tree { block_buffer = buffer })
        (record {
          justified = v.justified;
          consistent = v.consistent;
          buffered = remove_block_with_children-IsValid laws hash tree.block_buffer v.buffered;
        })
