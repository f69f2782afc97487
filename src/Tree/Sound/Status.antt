-- ===== src/Tree/Sound/Status.antt =====
-- crates/engine/src/tree/mod.rs: when a forkchoice update is answered with the status valid.
use zk_ress.Base.{
  ℕ, ◌≡◌, ◌⊎◌, refl, Option, some, ◌==◌, Bool-cases, Option-cases, inl, inr, arith, subst,
}
use zk_ress.Env.{
  Env, Result, ok, err, PayloadStatusEnum, PayloadStatus, syncing, invalid, OnForkChoiceUpdated,
  with_invalid, invalid_state, invalid_payload_attributes, ForkchoiceState,
}
use zk_ress.Outcome.{TreeOutcome}
use zk_ress.Primitives.{NumHash, SealedHeader, is_zero}
use zk_ress.Provider
use zk_ress.Provider.{ZkRessProvider}
use zk_ress.Tree.{EngineTree, stored, lowest_buffered_ancestor_or}
use zk_ress.Tree.Forkchoice.{
  HeaderNotFound, pre_validate_forkchoice_update, on_unknown_head, on_validated_update,
  on_forkchoice_updated,
}
use zk_ress.Tree.Invalid.{check_invalid_ancestor, prepare_invalid_response}
use zk_ress.Tree.NewHead.{on_new_head}
use zk_ress.Tree.NewHead.Tips.{on_new_head-tip}
use zk_ress.Tree.Sound.{KeepsStores, check_invalid_ancestor-KeepsStores}

-- If the status is valid, then the claim holds.
abbrev pub StatusClaims : Type 0 → PayloadStatusEnum → Type 0
StatusClaims claim PayloadStatusEnum.valid = claim
StatusClaims claim syncing = Unit
StatusClaims claim (invalid why) = Unit

abbrev pub UpdateClaims : Type 0 → OnForkChoiceUpdated → Type 0
UpdateClaims claim (OnForkChoiceUpdated.valid s) = StatusClaims claim s.status
UpdateClaims claim (with_invalid s) = StatusClaims claim s.status
UpdateClaims claim invalid_state = Unit
UpdateClaims claim invalid_payload_attributes = Unit

abbrev pub Claims : Type 0 → Result (TreeOutcome OnForkChoiceUpdated) HeaderNotFound → Type 0
Claims claim (ok outcome) = UpdateClaims claim outcome.outcome
Claims claim (err e) = Unit

pub StatusClaims-holds : (claim : Type 0) → claim → (s : PayloadStatusEnum) → StatusClaims claim s
StatusClaims-holds claim c PayloadStatusEnum.valid = c
StatusClaims-holds claim c syncing = tt
StatusClaims-holds claim c (invalid why) = tt

UpdateClaims-holds : (claim : Type 0) → claim → (u : OnForkChoiceUpdated) → UpdateClaims claim u
UpdateClaims-holds claim c (OnForkChoiceUpdated.valid s) = StatusClaims-holds claim c s.status
UpdateClaims-holds claim c (with_invalid s) = StatusClaims-holds claim c s.status
UpdateClaims-holds claim c invalid_state = tt
UpdateClaims-holds claim c invalid_payload_attributes = tt

Claims-holds :
    (claim : Type 0)
    → claim
    → (r : Result (TreeOutcome OnForkChoiceUpdated) HeaderNotFound) → Claims claim r
Claims-holds claim c (ok outcome) = UpdateClaims-holds claim c outcome.outcome
Claims-holds claim c (err e) = tt

-- The hash is that of the canonical head, or a block is stored under it.
abbrev pub KnownTo : {B P : Type 0} → ZkRessProvider B P → NumHash → ℕ → Type 0
KnownTo provider head hash =
    (head.hash ≡ hash) ⊎ ((h : SealedHeader) × (Provider.sealed_header provider hash ≡ some h))

module _ {env : Env} where
  abbrev pub IsKnown : EngineTree env → ℕ → Type 0
  IsKnown tree hash = KnownTo tree.provider tree.canonical_head hash

  on_unknown_head-Claims :
      (state : ForkchoiceState) (tree : EngineTree env)
      → Claims (IsKnown tree state.head_block_hash) (on_unknown_head state tree)
  unfolding on_unknown_head
  on_unknown_head-Claims state tree = elim (Option-cases (stored tree state.head_block_hash)) [
    | inl missing ↦ rw (missing, on_unknown_head) tt
    | inr (h, known) ↦
        Claims-holds (IsKnown tree state.head_block_hash) (inr (h, known))
          (on_unknown_head state tree)
  ]

  on_validated_update-Claims :
      (state : ForkchoiceState) (attrs : Option env.Attributes) (version : env.Version)
      (tree : EngineTree env)
      → Claims (IsKnown tree state.head_block_hash) (on_validated_update state attrs version tree).1
  unfolding on_validated_update
  on_validated_update-Claims state attrs version tree =
      elim (Bool-cases (tree.canonical_head.hash == state.head_block_hash)) [
        | inl same ↦
            Claims-holds (IsKnown tree state.head_block_hash) (inl (ground arith))
              (on_validated_update state attrs version tree).1
        | inr other ↦
            elim (Option-cases
              (on_new_head tree.provider tree.canonical_head state.head_block_hash)) [
                | inl lost ↦
                    rw (other, on_validated_update, lost) (on_unknown_head-Claims state tree)
                | inr (update, led) ↦
                    let (h, known, is_tip) =
                      on_new_head-tip tree.provider tree.canonical_head state.head_block_hash update
                        led in
                    Claims-holds (IsKnown tree state.head_block_hash) (inr (h, known))
                      (on_validated_update state attrs version tree).1
              ]
      ]

  -- A head on an invalid ancestor is refused with another status.
  check_invalid_ancestor-Claims :
      (claim : Type 0) (check : ℕ) (tree : EngineTree env) (status : PayloadStatus)
      → (check_invalid_ancestor check tree).1 ≡ some status
      → StatusClaims claim status.status
  unfolding check_invalid_ancestor prepare_invalid_response
  check_invalid_ancestor-Claims claim check tree status e =
      elim (Option-cases (env.cache_get check tree.invalid_headers).1) [
        | inl absent ↦ cc (rw (absent, check_invalid_ancestor) at e)
        | inr (h, present) ↦
            let refused =
              (prepare_invalid_response h.parent (record tree {
                invalid_headers = (env.cache_get check tree.invalid_headers).0;
              })).1 in
            let same : some refused ≡ some status = rw (present, check_invalid_ancestor) at e in
            let equal : refused ≡ status = cc same in
            subst (λ t. StatusClaims claim t.status) equal tt
      ]

  pre_validate-Claims :
      (claim : Type 0) (state : ForkchoiceState) (tree : EngineTree env) (u : OnForkChoiceUpdated)
      → (pre_validate_forkchoice_update state tree).1 ≡ some u
      → UpdateClaims claim u
  unfolding pre_validate_forkchoice_update
  pre_validate-Claims claim state tree (with_invalid s) e =
      elim (Bool-cases (is_zero state.head_block_hash)) [
        | inl zeroed ↦ absurd (ground arith)
        | inr given ↦
            let check = lowest_buffered_ancestor_or tree state.head_block_hash in
            elim (Option-cases (check_invalid_ancestor check tree).1) [
              | inl passed ↦ absurd (ground arith)
              | inr (status, refused) ↦
                  let same : status ≡ s = ground arith in
                  subst (λ t. StatusClaims claim t.status) same
                    (check_invalid_ancestor-Claims claim check tree status refused)
            ]
      ]
  pre_validate-Claims claim state tree invalid_state e = tt
  pre_validate-Claims claim state tree invalid_payload_attributes e = tt
  pre_validate-Claims claim state tree (OnForkChoiceUpdated.valid s) e =
      absurd (elim (Bool-cases (is_zero state.head_block_hash)) [
        | inl zeroed ↦ ground arith
        | inr given ↦
            elim (Option-cases
              (check_invalid_ancestor (lowest_buffered_ancestor_or tree state.head_block_hash)
                tree).1) [ inl passed ↦ ground arith | inr (status, refused) ↦ ground arith ]
      ])

  checked-Claims :
      (state : ForkchoiceState) (attrs : Option env.Attributes) (version : env.Version)
      (tree : EngineTree env)
      → Claims
          (IsKnown (pre_validate_forkchoice_update state tree).0 state.head_block_hash)
          (on_forkchoice_updated state attrs version tree).1
  unfolding on_forkchoice_updated
  checked-Claims state attrs version tree =
      let checked = (pre_validate_forkchoice_update state tree).0 in
      elim (Option-cases (pre_validate_forkchoice_update state tree).1) [
        | inl passed ↦
            rw (passed, on_forkchoice_updated)
              (on_validated_update-Claims state attrs version checked)
        | inr (u, refused) ↦
            rw (refused, on_forkchoice_updated)
              (pre_validate-Claims (IsKnown checked state.head_block_hash) state tree u refused)
      ]

  pre_validate-KeepsStores :
      (state : ForkchoiceState) (tree : EngineTree env)
      → KeepsStores tree (pre_validate_forkchoice_update state tree).0
  unfolding pre_validate_forkchoice_update
  pre_validate-KeepsStores state tree = elim (Bool-cases (is_zero state.head_block_hash)) [
    | inl zeroed ↦ rw (zeroed, pre_validate_forkchoice_update) (refl, refl, refl)
    | inr given ↦
        rw (given, pre_validate_forkchoice_update)
          (check_invalid_ancestor-KeepsStores
            (lowest_buffered_ancestor_or tree state.head_block_hash) tree)
  ]

  -- A forkchoice update is answered with a payload status that is valid, also where it is refused
  -- with a status, only if its head is the canonical head or stored in the provider when it comes.
  pub on_forkchoice_updated-Claims :
      (state : ForkchoiceState) (attrs : Option env.Attributes) (version : env.Version)
      (tree : EngineTree env)
      → Claims
          (IsKnown tree state.head_block_hash)
          (on_forkchoice_updated state attrs version tree).1
  on_forkchoice_updated-Claims state attrs version tree =
      let (same_provider, same_buffer, same_head) = pre_validate-KeepsStores state tree in
      let checked = (pre_validate_forkchoice_update state tree).0 in
      let reply = (on_forkchoice_updated state attrs version tree).1 in
      subst (λ n. Claims (KnownTo tree.provider n state.head_block_hash) reply) same_head
        (subst (λ p. Claims (KnownTo p checked.canonical_head state.head_block_hash) reply)
          same_provider (checked-Claims state attrs version tree))
