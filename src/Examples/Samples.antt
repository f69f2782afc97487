-- ===== src/Examples/Samples.antt =====
-- A chain of three headers, blocks without a body, and an environment in which the proofs are numbers
-- and a block is accepted with the proof 7.
use zk_ress.Base.{ℕ, true, false, [], ◌∷◌, Option, none, some, ◌==◌, if◌then◌else◌}
use zk_ress.ChainState.{ChainStateInner}
use zk_ress.Download.{Network}
use zk_ress.Env.{VerifierError, Env, ok, err, invalid, ForkchoiceState}
use zk_ress.Examples.Lru.{list_lru}
use zk_ress.Primitives.{SealedHeader, Block}
use zk_ress.Provider.{ZkRessProvider}

abbrev pub header_at : ℕ → ℕ → ℕ → ℕ → SealedHeader
header_at hash number parent_hash parent_number = record {
  hash = hash;
  number = number;
  parent_hash = parent_hash;
  parent_number = parent_number;
  state_root = 0;
  difficulty = 0;
}

abbrev pub block_of : SealedHeader → Block Unit
block_of h = record { header = h; body = tt }

abbrev pub first_block : Block Unit
first_block = block_of (header_at 11 1 10 0)

abbrev pub second_block : Block Unit
second_block = block_of (header_at 12 2 11 1)

abbrev pub third_block : Block Unit
third_block = block_of (header_at 13 3 12 2)

-- The first two are stored, the first with its proof, and both are canonical.
abbrev pub two_stored : ChainStateInner Unit ℕ
two_stored = record {
  canonical_hashes_by_number = (1, 11) ∷ (2, 12) ∷ [];
  blocks_by_hash = (11, first_block) ∷ (12, second_block) ∷ [];
  block_hashes_by_number = (1, 11 ∷ []) ∷ (2, 12 ∷ []) ∷ [];
  proofs = (11, 7) ∷ [];
}

abbrev pub two_provider : ZkRessProvider Unit ℕ
two_provider = record { genesis_header = header_at 10 0 0 0; chain_state = two_stored }

abbrev pub sample_env : Env
sample_env = record {
  Body = Unit;
  Proof = ℕ;
  lru = list_lru;
  Error = Unit;
  Fatal = Unit;
  ensure_validation_error = λ kind. err tt;
  validate_header = λ h. none;
  validate_block_pre_execution = λ b. none;
  verify = λ provider block parent p. if p == 7 then none else some (VerifierError.other tt);
  Cache = Unit;
  cache_new = λ limit. tt;
  cache_get = λ hash cache. (tt, none);
  cache_insert = λ entry cache. tt;
  cache_insert_with_invalid_ancestor = λ hash entry cache. tt;
  links_to_rejected_payload = "links to previously rejected block";
  Tracker = Option ForkchoiceState;
  ForkchoiceStatus = Unit;
  tracker_default = none;
  sync_target_state = λ tracker. tracker;
  set_latest = λ state status tracker. some state;
  forkchoice_status = λ updated. tt;
  Attributes = Unit;
  Version = Unit;
  attributes_fit = λ attrs h. true;
  attributes_build = λ hash attrs version. true;
  Payload = Block Unit;
  PayloadError = Unit;
  payload_parent_hash = λ p. p.parent_hash;
  payload_block_hash = λ p. p.hash;
  ensure_well_formed_payload = λ p. ok p;
  is_block_hash_mismatch = λ e. false;
  is_invalid_versioned_hashes = λ e. false;
  status_from_error = λ e. invalid "malformed";
  try_recover = λ b. true;
  sender_recovery_error = tt;
}

-- A network whose headers come sealed, and where a body is the hash of the header that it fits.
abbrev pub sample_network : Network ℕ ℕ
sample_network = record {
  RawHeader = SealedHeader;
  seal_slow = λ h. h;
  body_fits = λ body h. body == h.hash;
  header_range_fits = λ hs. true;
  Bytes = ℕ;
  decode = λ bytes. some bytes;
  is_empty = λ p. p == 0;
}
