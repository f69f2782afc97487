-- ===== src/Download/Downloader/Calls.antt =====
-- crates/engine/src/download/mod.rs: sequences of calls of a downloader.
use zk_ress.Base.{ℕ, List, [], ◌∷◌, Option, none, some}
use zk_ress.Download.{Network}
use zk_ress.Download.Downloader.{
  DownloadData, EngineDownloader, Answers, poll, download_full_block, download_proof,
  download_finalized_with_ancestors,
}

-- The calls of a downloader.
pub data Call {B P : Type 0} (net : Network B P) : Type 0 where
  asks_block asks_proof asks_finalized : ℕ → Call net
  polls : Answers net → Call net

abbrev pub collect : {A : Type 0} → Option A → List A → List A
collect none xs = xs
collect (some x) xs = x ∷ xs

module _ {B P : Type 0} (net : Network B P) where
  unfoldable pub call :
      Call net → EngineDownloader B P → EngineDownloader B P × Option (DownloadData B P)
  call (asks_block hash) this = (download_full_block hash this, none)
  call (asks_proof hash) this = (download_proof hash this, none)
  call (asks_finalized hash) this = (download_finalized_with_ancestors hash this, none)
  call (polls answers) this = poll net answers this

  -- The downloader after the calls, and the outcomes that it returned, the first in front.
  unfoldable pub calls :
      List (Call net) → EngineDownloader B P → EngineDownloader B P × List (DownloadData B P)
  unfolding call
  calls [] this = (this, [])
  calls (c ∷ cs) this =
      let (next, out) = call c this in let (last, outs) = calls cs next in (last, collect out outs)
