-- ===== src/Engine/Poll.antt =====
-- crates/engine/src/engine.rs: a turn of the event loop of `ConsensusEngine`, as a round.
use zk_ress.Base.{Bool, Option, none, some, if◌then◌else◌, is_some}
use zk_ress.Download.Downloader.{DownloadData}
use zk_ress.Env.{Env}
use zk_ress.Engine.{ConsensusEngine, Message, on_download_outcome, on_engine_message, time_out}

-- The inputs of a round: the outcome of the downloader, whether the parked payload has timed out, and
-- the next message.
pub record Round (env : Env) : Type 0 where
  pub downloaded : Option (DownloadData env.Body env.Proof)
  pub timed_out : Bool
  pub message : Option (Message env)

pub data Poll (F : Type 0) : Type 0 where
  again pending : Poll F
  failed : F → Poll F

module _ {env : Env} where
  unfoldable pub poll_messages :
      Option (Message env) → ConsensusEngine env → ConsensusEngine env × Poll env.Fatal
  unfolding on_engine_message
  poll_messages none this = (this, pending)
  poll_messages (some message) this = (on_engine_message message this, again)

  -- No message is read while a payload is parked.
  unfoldable pub poll_parked :
      Round env → ConsensusEngine env → ConsensusEngine env × Poll env.Fatal
  unfolding time_out poll_messages
  poll_parked round this =
      if is_some this.parked_payload
      then (if round.timed_out
          then poll_messages round.message (time_out this)
          else (this, pending))
      else poll_messages round.message this

  unfoldable pub poll_round : Round env → ConsensusEngine env → ConsensusEngine env × Poll env.Fatal
  unfolding on_download_outcome poll_parked
  poll_round round this = elim round.downloaded [
    | none ↦ poll_parked round this
    | some outcome ↦
        let (next, fatal) = on_download_outcome outcome this in
        (next, elim fatal [ none ↦ again | some e ↦ failed e ])
  ]
