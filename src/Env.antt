-- ===== src/Env.antt =====
-- What the engine takes from other crates (reth, alloy): the types that pass through it, and the
-- functions that it calls. All of it is a parameter, `Env`.
use Prim.Native.String.{String}
use zk_ress.Base.{ℕ, Bool, Option, none}
use zk_ress.Buffer.Lru.{LruMap}
use zk_ress.Primitives.{NumHash, SealedHeader, Block}
use zk_ress.Provider.{ZkRessProvider}

pub data Result {ℓ κ} (A : Type ℓ) (E : Type κ) : Type (ℓ ⊔ κ) where
  ok : A → Result A E
  err : E → Result A E

-- crates/verifier/src/lib.rs: the errors of `BlockVerifier::verify`.
pub data VerifierError (E : Type 0) : Type 0 where
  consensus execution provider other : E → VerifierError E

-- The variants of reth's `InsertBlockErrorKind` that the tree builds.
pub data InsertBlockErrorKind (E : Type 0) : Type 0 where
  consensus execution provider other : E → InsertBlockErrorKind E

-- The variants of `PayloadStatusEnum` that the tree builds.
pub data PayloadStatusEnum : Type 0 where
  valid syncing : PayloadStatusEnum
  invalid : String → PayloadStatusEnum

pub record PayloadStatus : Type 0 where
  pub status : PayloadStatusEnum
  pub latest_valid_hash : Option ℕ

abbrev pub from_status : PayloadStatusEnum → PayloadStatus
from_status s = record { status = s; latest_valid_hash = none }

-- The constructors of reth's `OnForkChoiceUpdated` that the tree calls.
pub data OnForkChoiceUpdated : Type 0 where
  valid with_invalid : PayloadStatus → OnForkChoiceUpdated
  invalid_state invalid_payload_attributes : OnForkChoiceUpdated

pub record ForkchoiceState : Type 0 where
  pub head_block_hash : ℕ
  pub safe_block_hash : ℕ
  pub finalized_block_hash : ℕ

-- `BlockWithParent`, the entries of the invalid header cache.
pub record BlockWithParent : Type 0 where
  pub parent : ℕ
  pub block : NumHash

pub record Env : Type 1 where
  pub Body : Type 0
  pub Proof : Type 0
  pub lru : LruMap
  -- What the errors of the consensus, the verifier and the block insertion carry.
  pub Error : Type 0
  pub Fatal : Type 0
  -- `ensure_validation_error` and the `to_string` of the validation error.
  pub ensure_validation_error : InsertBlockErrorKind Error → Result String Fatal
  -- `EthBeaconConsensus`.
  pub validate_header : SealedHeader → Option Error
  pub validate_block_pre_execution : Block Body → Option Error
  -- `BlockVerifier::verify`, an interface of crates/verifier/src/lib.rs. The verifier holds a clone
  -- of the provider.
  pub verify :
      ZkRessProvider Body Proof → Block Body → SealedHeader → Proof → Option (VerifierError Error)
  -- `InvalidHeaderCache`. A `get` counts its hits, so it returns a new cache.
  pub Cache : Type 0
  pub cache_new : ℕ → Cache
  pub cache_get : ℕ → Cache → Cache × Option BlockWithParent
  pub cache_insert : BlockWithParent → Cache → Cache
  pub cache_insert_with_invalid_ancestor : ℕ → BlockWithParent → Cache → Cache
  -- `PayloadValidationError::LinksToRejectedPayload.to_string()`
  pub links_to_rejected_payload : String
  -- `ForkchoiceStateTracker` and `ForkchoiceStatus`.
  pub Tracker : Type 0
  pub ForkchoiceStatus : Type 0
  pub tracker_default : Tracker
  pub sync_target_state : Tracker → Option ForkchoiceState
  pub set_latest : ForkchoiceState → ForkchoiceStatus → Tracker → Tracker
  pub forkchoice_status : OnForkChoiceUpdated → ForkchoiceStatus
  -- `PayloadAttributes`, `EngineApiMessageVersion`, and whether they are accepted by
  -- `validate_payload_attributes_against_header` and by `EthPayloadBuilderAttributes::try_new`.
  pub Attributes : Type 0
  pub Version : Type 0
  pub attributes_fit : Attributes → SealedHeader → Bool
  pub attributes_build : ℕ → Attributes → Version → Bool
  -- `ExecutionData` and `ensure_well_formed_payload`.
  pub Payload : Type 0
  pub PayloadError : Type 0
  pub payload_parent_hash : Payload → ℕ
  pub payload_block_hash : Payload → ℕ
  pub ensure_well_formed_payload : Payload → Result (Block Body) PayloadError
  pub is_block_hash_mismatch : PayloadError → Bool
  pub is_invalid_versioned_hashes : PayloadError → Bool
  pub status_from_error : PayloadError → PayloadStatusEnum
  -- `SealedBlock::try_recover`: whether the senders can be recovered.
  pub try_recover : Block Body → Bool
  -- `InsertBlockFatalError::Provider(ProviderError::SenderRecoveryError)`
  pub sender_recovery_error : Fatal
