-- ===== src/Outcome.antt =====
-- crates/engine/src/tree/outcome.rs: what a tree operation returns, and the event that it asks for.
use zk_ress.Base.{ℕ, Option, none, some}

pub data TreeAction : Type 0 where
  make_canonical : ℕ → TreeAction

pub data DownloadRequest : Type 0 where
  block proof finalized : ℕ → DownloadRequest

pub data TreeEvent : Type 0 where
  tree_action : TreeAction → TreeEvent
  download : DownloadRequest → TreeEvent

-- `TreeEvent::download_proof` and the like.
abbrev pub download_proof : ℕ → TreeEvent
download_proof block_hash = download (DownloadRequest.proof block_hash)

abbrev pub download_block : ℕ → TreeEvent
download_block block_hash = download (DownloadRequest.block block_hash)

abbrev pub download_finalized : ℕ → TreeEvent
download_finalized block_hash = download (DownloadRequest.finalized block_hash)

abbrev pub make_canonical_event : ℕ → TreeEvent
make_canonical_event sync_target_head = tree_action (TreeAction.make_canonical sync_target_head)

unfoldable pub as_proof_download : TreeEvent → Option ℕ
as_proof_download (tree_action a) = none
as_proof_download (download (DownloadRequest.block h)) = none
as_proof_download (download (DownloadRequest.proof h)) = some h
as_proof_download (download (DownloadRequest.finalized h)) = none

pub record TreeOutcome (T : Type 0) : Type 0 where
  pub outcome : T
  pub event : Option TreeEvent

abbrev pub new : {T : Type 0} → T → TreeOutcome T
new outcome = record { outcome = outcome; event = none }

abbrev pub with_event : {T : Type 0} → TreeOutcome T → TreeEvent → TreeOutcome T
with_event o e = record o { event = some e }
