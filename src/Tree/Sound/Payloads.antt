-- ===== src/Tree/Sound/Payloads.antt =====
-- crates/engine/src/tree/mod.rs: what the status valid says of a payload and of a downloaded block.
use Prim.Native.String.{String}
use zk_ress.Base.{ℕ, ◌≡◌, Option, some, inl, inr, Option-cases, subst, refl}
use zk_ress.Env.{Env, Result, ok, err, InsertBlockErrorKind}
use zk_ress.Primitives.{Block}
use zk_ress.Tree.{
  EngineTree, BlockStatus, InsertPayloadOk, already_seen, inserted, disconnected, no_proof,
  lowest_buffered_ancestor_or,
}
use zk_ress.Tree.Insert.{insert_block, try_connect_buffered_blocks}
use zk_ress.Tree.Invalid.{
  check_invalid_ancestor_with_head, on_insert_block_error, prepare_invalid_response,
}
use zk_ress.Tree.Payload.{
  payload_connected, download_connected, reply_error, payload_reply, download_reply,
  payload_ancestor, on_block_payload, on_malformed_payload, on_new_payload, on_downloaded_block,
}
use zk_ress.Tree.Sound.{check_invalid_ancestor_with_head-KeepsStores}
use zk_ress.Tree.Sound.Status.{StatusClaims}
use zk_ress.Tree.Sound.Verified.{
  PayloadClaims, InsertClaims, CheckClaims, StatusClaims-implies, IsVerified, insert_block-Claims,
}

module _ {env : Env} where
  reply_error-Claims :
      (claim : Type 0) (block : Block env.Body) (kind : InsertBlockErrorKind env.Error)
      (tree : EngineTree env)
      → PayloadClaims claim (reply_error block kind tree).1
  unfolding reply_error on_insert_block_error
  reply_error-Claims claim block kind tree = by_result (env.ensure_validation_error kind) refl
    where
      by_result :
          (r : Result String env.Fatal)
          → env.ensure_validation_error kind ≡ r
          → PayloadClaims claim (reply_error block kind tree).1
      by_result (err fatal) e = rw (e, on_insert_block_error, reply_error) tt
      by_result (ok validation_error) e = rw (e, on_insert_block_error, reply_error) tt

  payload_connected-Claims :
      (claim : Type 0) (hash : ℕ) (tree : EngineTree env)
      → claim
      → PayloadClaims claim (payload_connected hash tree).1
  unfolding payload_connected
  payload_connected-Claims claim hash tree c =
      elim (Option-cases (try_connect_buffered_blocks hash tree).1) [
        | inl went ↦ rw (went, payload_connected) c
        | inr (fatal, failed) ↦ rw (failed, payload_connected) tt
      ]

  payload_reply-Claims :
      (claim : Type 0) (block : Block env.Body)
      (result : Result InsertPayloadOk (InsertBlockErrorKind env.Error)) (tree : EngineTree env)
      → InsertClaims claim result
      → PayloadClaims claim (payload_reply block result tree).1
  unfolding payload_reply
  payload_reply-Claims claim block (ok (inserted BlockStatus.valid)) tree c =
      payload_connected-Claims claim block.hash tree c
  payload_reply-Claims claim block (ok already_seen) tree c =
      payload_connected-Claims claim block.hash tree c
  payload_reply-Claims claim block (ok (inserted (disconnected head missing))) tree c = tt
  payload_reply-Claims claim block (ok (inserted no_proof)) tree c = tt
  payload_reply-Claims claim block (err kind) tree c = reply_error-Claims claim block kind tree

  download_connected-Claims :
      (claim : Type 0) (hash : ℕ) (tree : EngineTree env)
      → claim
      → PayloadClaims claim (download_connected hash tree).1
  unfolding download_connected
  download_connected-Claims claim hash tree c =
      elim (Option-cases (try_connect_buffered_blocks hash tree).1) [
        | inl went ↦ rw (went, download_connected) c
        | inr (fatal, failed) ↦ rw (failed, download_connected) tt
      ]

  download_reply-Claims :
      (claim : Type 0) (block : Block env.Body)
      (result : Result InsertPayloadOk (InsertBlockErrorKind env.Error)) (tree : EngineTree env)
      → InsertClaims claim result
      → PayloadClaims claim (download_reply block result tree).1
  unfolding download_reply
  download_reply-Claims claim block (ok (inserted BlockStatus.valid)) tree c =
      download_connected-Claims claim block.hash tree c
  download_reply-Claims claim block (ok already_seen) tree c = c
  download_reply-Claims claim block (ok (inserted (disconnected head missing))) tree c = tt
  download_reply-Claims claim block (ok (inserted no_proof)) tree c = tt
  download_reply-Claims claim block (err kind) tree c = reply_error-Claims claim block kind tree

  check-Claims :
      (claim : Type 0) (check head : ℕ) (tree : EngineTree env)
      → CheckClaims claim (check_invalid_ancestor_with_head check head tree).1
  unfolding check_invalid_ancestor_with_head prepare_invalid_response
  check-Claims claim check head tree =
      elim (Option-cases (env.cache_get check tree.invalid_headers).1) [
        | inl absent ↦ rw (absent, check_invalid_ancestor_with_head) tt
        | inr (h, present) ↦ rw (present, check_invalid_ancestor_with_head) tt
      ]

  -- A verdict on the block against the provider of the tree that was checked holds of the tree before.
  checked_provider :
      (claim : Type 0) (check head : ℕ) (block : Block env.Body) (maybe_proof : Option env.Proof)
      (tree : EngineTree env)
      → (IsVerified env tree.provider block maybe_proof → claim)
      → IsVerified env
          (check_invalid_ancestor_with_head check head tree).0.provider
          block
          maybe_proof
      → claim
  checked_provider claim check head block maybe_proof tree f v = f (
      subst (λ p. IsVerified env p block maybe_proof)
        (check_invalid_ancestor_with_head-KeepsStores check head tree).0 v)

  on_block_payload-Claims :
      (claim : Type 0) (block : Block env.Body) (maybe_proof : Option env.Proof)
      (tree : EngineTree env)
      → (IsVerified env tree.provider block maybe_proof → claim)
      → PayloadClaims claim (on_block_payload block maybe_proof tree).1
  unfolding on_block_payload
  on_block_payload-Claims claim block maybe_proof tree f =
      let check = payload_ancestor tree block in
      let checked = (check_invalid_ancestor_with_head check block.hash tree).0 in
      elim (Option-cases (check_invalid_ancestor_with_head check block.hash tree).1) [
        | inr (status, refused) ↦
            rw (refused, on_block_payload)
              (subst (CheckClaims claim) refused (check-Claims claim check block.hash tree))
        | inl passed ↦
            rw (passed, on_block_payload)
              (payload_reply-Claims claim block (insert_block block maybe_proof checked).1
                (insert_block block maybe_proof checked).0
                (insert_block-Claims claim block maybe_proof checked
                  (checked_provider claim check block.hash block maybe_proof tree f)))
      ]

  -- A downloaded block is answered with the status valid only if it was stored, or is valid, has a
  -- stored parent, and the verifier accepts its proof.
  on_downloaded_block-Claims :
      (claim : Type 0) (block : Block env.Body) (p : env.Proof) (tree : EngineTree env)
      → (IsVerified env tree.provider block (some p) → claim)
      → PayloadClaims claim (on_downloaded_block block p tree).1
  unfolding on_downloaded_block
  on_downloaded_block-Claims claim block p tree f =
      let check = lowest_buffered_ancestor_or tree block.hash in
      let checked = (check_invalid_ancestor_with_head check block.hash tree).0 in
      elim (Option-cases (check_invalid_ancestor_with_head check block.hash tree).1) [
        | inr (status, refused) ↦
            rw (refused, on_downloaded_block)
              (subst (CheckClaims claim) refused (check-Claims claim check block.hash tree))
        | inl passed ↦
            rw (passed, on_downloaded_block)
              (download_reply-Claims claim block (insert_block block (some p) checked).1
                (insert_block block (some p) checked).0
                (insert_block-Claims claim block (some p) checked
                  (checked_provider claim check block.hash block (some p) tree f)))
      ]

  -- The payload is well formed, and its block is verified.
  abbrev pub PayloadVerified : env.Payload → Option env.Proof → EngineTree env → Type 0
  PayloadVerified payload maybe_proof tree =
      (block : Block env.Body) × (env.ensure_well_formed_payload payload ≡ ok block)
      × IsVerified env tree.provider block maybe_proof

  -- If the status of no payload error is valid, a new payload is answered with the status valid
  -- only if it is well formed and its block was stored before, or passes the checks of the
  -- consensus, has a stored parent, and comes with a proof that the verifier accepts against that
  -- parent.
  pub on_new_payload-Claims :
      (payload : env.Payload) (maybe_proof : Option env.Proof) (tree : EngineTree env)
      → ((error : env.PayloadError) → StatusClaims ⊥ (env.status_from_error error))
      → PayloadClaims
          (PayloadVerified payload maybe_proof tree)
          (on_new_payload payload maybe_proof tree).1
  on_new_payload-Claims payload maybe_proof tree never_valid =
      by_form (PayloadVerified payload maybe_proof tree) (env.ensure_well_formed_payload payload)
        refl (λ v. v)
    where
      by_form :
          (claim : Type 0) (r : Result (Block env.Body) env.PayloadError)
          → env.ensure_well_formed_payload payload ≡ r
          → (PayloadVerified payload maybe_proof tree → claim)
          → PayloadClaims claim (on_new_payload payload maybe_proof tree).1
      by_form claim (ok block) e f =
          unfold on_new_payload in
          rw (e, on_new_payload)
            (on_block_payload-Claims claim block maybe_proof tree (λ v. f (block, e, v)))
      by_form claim (err error) e f =
          unfold on_new_payload in
          unfold on_malformed_payload in
          rw (e, on_new_payload)
            (StatusClaims-implies claim ⊥ (env.status_from_error error) (λ c. absurd c)
              (never_valid error))
