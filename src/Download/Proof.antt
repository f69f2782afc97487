-- ===== src/Download/Proof.antt =====
-- crates/engine/src/download/futs.rs: `FetchProofFuture`.
use zk_ress.Base.{List, [], ◌∷◌, Option, none, some, if◌then◌else◌}
use zk_ress.Download.{Network, PeerRequestError}
use zk_ress.Env.{Result, ok, err}

module _ {B P : Type 0} (net : Network B P) where
  -- One round of the loop: the proof that an answer holds, if it decodes and is not empty.
  unfoldable pub accepted : Result net.Bytes PeerRequestError → Option P
  accepted (err error) = none
  accepted (ok bytes) = elim (net.decode bytes) [
    | none ↦ none
    | some proof ↦ if net.is_empty proof then none else some proof
  ]

  -- `poll`, given the answers that become ready in it, each to a new request; `none` is `Pending`.
  unfoldable pub poll : List (Result net.Bytes PeerRequestError) → Option P
  unfolding accepted
  poll [] = none
  poll (response ∷ responses) =
      let rest = poll responses in
      elim (accepted response) [ some proof ↦ some proof | none ↦ rest ]
