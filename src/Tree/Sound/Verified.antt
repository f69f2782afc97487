-- ===== src/Tree/Sound/Verified.antt =====
-- crates/engine/src/tree/mod.rs: when `insert_block` takes a block as valid.
use zk_ress.Base.{◌≡◌, ◌⊎◌, Option, none, some, inl, inr, Option-cases, refl}
use zk_ress.Env.{Env, Result, ok, err, PayloadStatusEnum, PayloadStatus, syncing, invalid}
use zk_ress.Outcome.{TreeOutcome}
use zk_ress.Primitives.{SealedHeader, Block}
use zk_ress.Provider
use zk_ress.Provider.{ZkRessProvider}
use zk_ress.Tree.{
  EngineTree, BlockStatus, InsertPayloadOk, already_seen, inserted, disconnected, no_proof, stored,
}
use zk_ress.Tree.Insert.{validate_block, insert_connected, insert_validated, insert_block}
use zk_ress.Tree.Sound.Status.{StatusClaims}

-- Only the status valid claims anything.
abbrev pub PayloadClaims : {F : Type 0} → Type 0 → Result (TreeOutcome PayloadStatus) F → Type 0
PayloadClaims claim (ok outcome) = StatusClaims claim outcome.outcome.status
PayloadClaims claim (err e) = Unit

abbrev pub InsertClaims : {K : Type 0} → Type 0 → Result InsertPayloadOk K → Type 0
InsertClaims claim (ok already_seen) = claim
InsertClaims claim (ok (inserted BlockStatus.valid)) = claim
InsertClaims claim (ok (inserted (disconnected head missing))) = Unit
InsertClaims claim (ok (inserted no_proof)) = Unit
InsertClaims claim (err e) = Unit

pub StatusClaims-implies :
    (weak strong : Type 0) (s : PayloadStatusEnum)
    → (strong → weak)
    → StatusClaims strong s
    → StatusClaims weak s
StatusClaims-implies weak strong PayloadStatusEnum.valid f c = f c
StatusClaims-implies weak strong syncing f c = tt
StatusClaims-implies weak strong (invalid why) f c = tt

abbrev pub CheckClaims : Type 0 → Option PayloadStatus → Type 0
CheckClaims claim none = Unit
CheckClaims claim (some status) = StatusClaims claim status.status

-- A block is stored under the hash, or the block is valid, its parent is stored, and the verifier accepts
-- its proof.
abbrev pub IsVerified :
    (env : Env) → ZkRessProvider env.Body env.Proof → Block env.Body → Option env.Proof → Type 0
IsVerified env provider block maybe_proof =
    ((h : SealedHeader) × (Provider.sealed_header provider block.hash ≡ some h))
    ⊎ ((parent : SealedHeader) × (p : env.Proof) × (maybe_proof ≡ some p)
        × (Provider.sealed_header provider block.parent_hash ≡ some parent)
        × (validate_block env block ≡ none)
        × (env.verify provider block parent p ≡ none))

module _ {env : Env} where
  insert_connected-Claims :
      (claim : Type 0) (block : Block env.Body) (parent : SealedHeader)
      (maybe_proof : Option env.Proof) (tree : EngineTree env)
      → stored tree block.parent_hash ≡ some parent
      → validate_block env block ≡ none
      → (IsVerified env tree.provider block maybe_proof → claim)
      → InsertClaims claim (insert_connected block parent maybe_proof tree).1
  unfolding insert_connected
  insert_connected-Claims claim block parent none tree known passed f = tt
  insert_connected-Claims claim block parent (some p) tree known passed f =
      elim (Option-cases (env.verify tree.provider block parent p)) [
        | inl accepted ↦
            rw (accepted, insert_connected) (f (inr (parent, p, refl, known, passed, accepted)))
        | inr (e, refused) ↦ rw (refused, insert_connected) tt
      ]

  pub insert_block-Claims :
      (claim : Type 0) (block : Block env.Body) (maybe_proof : Option env.Proof)
      (tree : EngineTree env)
      → (IsVerified env tree.provider block maybe_proof → claim)
      → InsertClaims claim (insert_block block maybe_proof tree).1
  unfolding insert_block insert_validated
  insert_block-Claims claim block maybe_proof tree f =
      elim (Option-cases (stored tree block.hash)) [
        | inr (h, seen) ↦ rw (seen, insert_block) (f (inl (h, seen)))
        | inl new ↦ elim (Option-cases (validate_block env block)) [
          | inr (e, refused) ↦ rw (new, refused, insert_block) tt
          | inl passed ↦ elim (Option-cases (stored tree block.parent_hash)) [
            | inl unknown ↦ rw (new, passed, insert_block, unknown, insert_validated) tt
            | inr (parent, known) ↦
                rw (new, passed, insert_block, known, insert_validated)
                  (insert_connected-Claims claim block parent maybe_proof tree known passed f)
          ]
        ]
      ]
