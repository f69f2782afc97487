-- ===== src/Primitives.antt =====
-- The data of other crates that the program reads: hashes, sealed headers and blocks. A 256-bit hash
-- is a number and `B256::ZERO` is 0. What an accessor of these types returns is a field, so nothing
-- is assumed of how it is computed: `parent_number` is the number in `parent_num_hash()`.
use zk_ress.Base.{ℕ, Bool, ◌==◌}

-- `BlockNumHash`
pub record NumHash : Type 0 where
  pub number : ℕ
  pub hash : ℕ

pub record SealedHeader : Type 0 where
  pub hash : ℕ
  pub number : ℕ
  pub parent_hash : ℕ
  pub parent_number : ℕ
  pub state_root : ℕ
  pub difficulty : ℕ

-- A `SealedBlock`, or a `RecoveredBlock`, whose senders the program never reads.
pub record Block (B : Type 0) : Type 0 where
  pub header : SealedHeader
  pub open header use *
  pub body : B

abbrev pub num_hash : SealedHeader → NumHash
num_hash h = record { number = h.number; hash = h.hash }

abbrev pub parent_num_hash : SealedHeader → NumHash
parent_num_hash h = record { number = h.parent_number; hash = h.parent_hash }

-- `B256::is_zero`
abbrev pub is_zero : ℕ → Bool
is_zero h = h == 0
