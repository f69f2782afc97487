-- ===== src/Engine/Channels.antt =====
-- crates/engine/src/engine.rs: every message that the engine reads is answered once, in order.
use zk_ress.Base.{
  ℕ, ◌≡◌, refl, Bool, true, false, List, ◌∷◌, Option, none, some, arith, ◌==◌, Option-cases,
  Bool-cases, inl, inr, is_some, if◌then◌else◌, map, ◌∙◌, ap,
}
use zk_ress.Base.Maps.{contains_key}
use zk_ress.Buffer
use zk_ress.Download.Downloader.{DownloadData, full_block, proof, finalized_block}
use zk_ress.Engine.{
  ParkedPayload, Reply, payload_status, forkchoice_status, Message, new_payload, forkchoice_update,
  ConsensusEngine, outcome_of, event_of, with_tree, on_tree_event, on_maybe_tree_event, unpark,
  unlock, unlock_block, adopt_finalized, on_download_outcome, answer_payload, on_payload_message,
  track, on_engine_message, time_out, is_syncing, send,
}
use zk_ress.Engine.Poll.{Round, poll_messages, poll_parked, poll_round}
use zk_ress.Env.{Env, Result, ok, err, PayloadStatus, OnForkChoiceUpdated, ForkchoiceState}
use zk_ress.Outcome.{
  TreeEvent, tree_action, download, TreeAction, DownloadRequest, TreeOutcome, as_proof_download,
  download_proof,
}
use zk_ress.Primitives.{Block}
use zk_ress.Tree.Forkchoice.{HeaderNotFound, on_forkchoice_updated}
use zk_ress.Tree.Payload.{on_downloaded_block}

abbrev pub channel : {F : Type 0} → Reply F → ℕ
channel (payload_status tx result) = tx
channel (forkchoice_status tx result) = tx

abbrev pub message_channel : {env : Env} → Message env → ℕ
message_channel (new_payload payload tx) = tx
message_channel (forkchoice_update state attrs version tx) = tx

abbrev pub parked_channel : Option ParkedPayload → List ℕ → List ℕ
parked_channel none txs = txs
parked_channel (some parked) txs = parked.tx ∷ txs

-- The channels that are answered or parked, the latest first: a parked payload is the latest.
abbrev pub channels : {env : Env} → ConsensusEngine env → List ℕ
channels this = parked_channel this.parked_payload (map channel this.replies)

-- The message that a round reads: none while the downloader has an outcome, and none while a payload
-- is parked that has not timed out.
abbrev pub read : {env : Env} → Round env → ConsensusEngine env → Option (Message env)
read round this = elim round.downloaded [
  | some outcome ↦ none
  | none ↦
      if is_some this.parked_payload
      then (if round.timed_out then round.message else none)
      else round.message
]

abbrev pub with_channel : {env : Env} → Option (Message env) → List ℕ → List ℕ
with_channel none txs = txs
with_channel (some message) txs = message_channel message ∷ txs

-- Nothing is answered, and nothing parked.
abbrev pub KeepsReplies : {env : Env} → ConsensusEngine env → ConsensusEngine env → Type 0
KeepsReplies before after =
    (after.parked_payload ≡ before.parked_payload) × (after.replies ≡ before.replies)

module _ {env : Env} where
  on_tree_event-KeepsReplies :
      (event : TreeEvent) (this : ConsensusEngine env)
      → KeepsReplies this (on_tree_event event this)
  unfolding on_tree_event
  on_tree_event-KeepsReplies (download (DownloadRequest.block block_hash)) this =
      elim (Bool-cases (contains_key block_hash this.tree.block_buffer.proofs)) [
        | inl known ↦ rw (known, on_tree_event) (refl, refl)
        | inr unknown ↦ rw (unknown, on_tree_event) (refl, refl)
      ]
  on_tree_event-KeepsReplies (download (DownloadRequest.proof block_hash)) this = (refl, refl)
  on_tree_event-KeepsReplies (download (DownloadRequest.finalized block_hash)) this = (refl, refl)
  on_tree_event-KeepsReplies (tree_action (TreeAction.make_canonical head)) this = (refl, refl)

  on_maybe_tree_event-KeepsReplies :
      (event : Option TreeEvent) (this : ConsensusEngine env)
      → KeepsReplies this (on_maybe_tree_event event this)
  unfolding on_maybe_tree_event
  on_maybe_tree_event-KeepsReplies none this = (refl, refl)
  on_maybe_tree_event-KeepsReplies (some event) this = on_tree_event-KeepsReplies event this

  channels-keep :
      (before after : ConsensusEngine env)
      → KeepsReplies before after
      → channels after ≡ channels before
  channels-keep before after (same_parked, same_replies) = rw (same_parked, same_replies)

  unpark-channels :
      (hash : ℕ) (result : Result PayloadStatus env.Fatal) (this : ConsensusEngine env)
      → channels (unpark hash result this) ≡ channels this
  unfolding unpark send
  unpark-channels hash result this = elim (Option-cases this.parked_payload) [
    | inl free ↦ rw (free, unpark, free)
    | inr (parked, waits) ↦ elim (Bool-cases (parked.block_hash == hash)) [
      | inl same ↦ rw (waits, same, unpark)
      | inr other ↦ rw (waits, other, unpark, waits)
    ]
  ]

  unlock_block-channels :
      (block : Block env.Body) (witness : env.Proof) (this : ConsensusEngine env)
      → channels (unlock_block block witness this) ≡ channels this
  unfolding unlock_block
  unlock_block-channels block witness this =
      let (tree, result) = on_downloaded_block block witness this.tree in
      let acted = on_maybe_tree_event (event_of result) (with_tree tree this) in
      unpark-channels block.hash (outcome_of result) acted
      ∙ channels-keep (with_tree tree this) acted
          (on_maybe_tree_event-KeepsReplies (event_of result) (with_tree tree this))

  unlock-channels :
      (hash : ℕ) (this : ConsensusEngine env) → channels (unlock hash this) ≡ channels this
  unfolding unlock
  unlock-channels hash this =
      elim (Option-cases (Buffer.remove_block hash this.tree.block_buffer).1) [
        | inl kept ↦ rw (kept, unlock)
        | inr (pair, removed) ↦ rw (removed, unlock) (unlock_block-channels pair.0 pair.1 _)
      ]

  on_download_outcome-channels :
      (outcome : DownloadData env.Body env.Proof) (this : ConsensusEngine env)
      → channels (on_download_outcome outcome this).0 ≡ channels this
  unfolding on_download_outcome
  on_download_outcome-channels (finalized_block block ancestors) this =
      elim (Bool-cases (env.try_recover block)) [
        | inl signed ↦
            rw (signed, on_download_outcome)
              (unlock-channels block.hash
                (with_tree (adopt_finalized block ancestors this.tree) this))
        | inr unsigned ↦ rw (unsigned, on_download_outcome)
      ]
  on_download_outcome-channels (full_block block) this = elim (Bool-cases (env.try_recover block)) [
    | inl signed ↦ rw (signed, on_download_outcome) (unlock-channels block.hash _)
    | inr unsigned ↦ rw (unsigned, on_download_outcome)
  ]
  on_download_outcome-channels (proof block_hash witness) this = unlock-channels block_hash _

  completed-KeepsReplies :
      (has_proof : Bool) (event : TreeEvent) (block_hash : ℕ) (this : ConsensusEngine env)
      → KeepsReplies this (
          if has_proof
          then on_tree_event event this
          else on_tree_event (download_proof block_hash) (on_tree_event event this))
  completed-KeepsReplies true event block_hash this = on_tree_event-KeepsReplies event this
  completed-KeepsReplies false event block_hash this =
      let (parked, replies) = on_tree_event-KeepsReplies event this in
      let (parked', replies') =
        on_tree_event-KeepsReplies (download_proof block_hash) (on_tree_event event this) in
      (parked' ∙ parked, replies' ∙ replies)

  -- With no payload parked, the answer to a payload is sent or the payload is parked.
  answer_payload-channels :
      (block_hash : ℕ) (has_proof : Bool) (tx : ℕ)
      (result : Result (TreeOutcome PayloadStatus) env.Fatal) (this : ConsensusEngine env)
      → this.parked_payload ≡ none
      → channels (answer_payload block_hash has_proof tx result this) ≡ tx ∷ channels this
  unfolding answer_payload send
  answer_payload-channels block_hash has_proof tx (err fatal) this free = rw (free)
  answer_payload-channels block_hash has_proof tx (ok outcome) this free =
      elim (Option-cases outcome.event) [
        | inl quiet ↦ rw (quiet, answer_payload, free)
        | inr (event, told) ↦
            let (parked, replies) = on_tree_event-KeepsReplies event this in
            let (parked', replies') = completed-KeepsReplies has_proof event block_hash this in
            elim (Option-cases (as_proof_download event)) [
              | inl other ↦ rw (told, answer_payload, other, parked', replies', free)
              | inr (wanted, asked) ↦ elim (Bool-cases (is_syncing outcome.outcome)) [
                | inl waits ↦ rw (told, answer_payload, asked, waits, replies, free)
                | inr ready ↦ rw (told, answer_payload, asked, ready, parked', replies', free)
              ]
            ]
      ]

  time_out-channels : (this : ConsensusEngine env) → channels (time_out this) ≡ channels this
  unfolding time_out send
  time_out-channels this = elim (Option-cases this.parked_payload) [
    | inl free ↦ rw (free, time_out, free)
    | inr (parked, waits) ↦ rw (waits, time_out)
  ]

  track-channels :
      (state : ForkchoiceState) (result : Result (TreeOutcome OnForkChoiceUpdated) HeaderNotFound)
      (this : ConsensusEngine env)
      → KeepsReplies this (track state result this)
  unfolding track
  track-channels state (err e) this = (refl, refl)
  track-channels state (ok outcome) this = on_maybe_tree_event-KeepsReplies outcome.event _

  on_engine_message-channels :
      (message : Message env) (this : ConsensusEngine env)
      → this.parked_payload ≡ none
      → channels (on_engine_message message this) ≡ message_channel message ∷ channels this
  unfolding on_engine_message on_payload_message send
  on_engine_message-channels (new_payload payload tx) this free =
      answer_payload-channels _ _ tx _ _ free
  on_engine_message-channels (forkchoice_update state attrs version tx) this free =
      let (tree, result) = on_forkchoice_updated state attrs version this.tree in
      let (parked, replies) = track-channels state result (with_tree tree this) in
      rw (parked, replies, free)

  poll_messages-channels :
      (message : Option (Message env)) (this : ConsensusEngine env)
      → this.parked_payload ≡ none
      → channels (poll_messages message this).0 ≡ with_channel message (channels this)
  unfolding poll_messages
  poll_messages-channels none this free = refl
  poll_messages-channels (some message) this free = on_engine_message-channels message this free

  time_out_frees : (this : ConsensusEngine env) → (time_out this).parked_payload ≡ none
  unfolding time_out send
  time_out_frees this = elim (Option-cases this.parked_payload) [
    | inl free ↦ rw (free, time_out) free
    | inr (parked, waits) ↦ rw (waits, time_out)
  ]

  -- What a round without a downloaded outcome may read.
  unlocked_message : Round env → ConsensusEngine env → Option (Message env)
  unlocked_message round this =
      if is_some this.parked_payload
      then (if round.timed_out then round.message else none)
      else round.message

  poll_parked-channels :
      (round : Round env) (this : ConsensusEngine env)
      → channels (poll_parked round this).0
        ≡ with_channel (unlocked_message round this) (channels this)
  unfolding poll_parked unlocked_message
  poll_parked-channels round this = elim (Bool-cases (is_some this.parked_payload)) [
    | inr free ↦ rw (free, poll_parked) (poll_messages-channels round.message this (none_of free))
    | inl waits ↦ elim (Bool-cases round.timed_out) [
      | inl late ↦
          rw (waits, poll_parked, late)
            (poll_messages-channels round.message (time_out this) (time_out_frees this)
              ∙ ap (with_channel round.message) (time_out-channels this))
      | inr early ↦ rw (waits, poll_parked, early)
    ]
  ]
    where
      none_of : is_some this.parked_payload ≡ false → this.parked_payload ≡ none
      none_of e = ground arith

  -- A round leaves the reply channels that were answered or parked as they were and in their
  -- order, and puts in front that of the message that it reads, if it reads one: none while the
  -- downloader has an outcome or a payload is parked that has not timed out.
  pub poll_round-channels :
      (round : Round env) (this : ConsensusEngine env)
      → channels (poll_round round this).0 ≡ with_channel (read round this) (channels this)
  unfolding poll_round
  poll_round-channels round this = elim (Option-cases round.downloaded) [
    | inl quiet ↦
        rw (quiet, poll_round) (unfold unlocked_message in poll_parked-channels round this)
    | inr (outcome, came) ↦ rw (came, poll_round) (on_download_outcome-channels outcome this)
  ]
