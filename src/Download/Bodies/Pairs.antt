-- ===== src/Download/Bodies/Pairs.antt =====
-- crates/engine/src/download/futs.rs: which body `FetchFullBlockRangeFuture` puts under which header.
use zk_ress.Base.{
  ℕ, ◌≡◌, refl, true, false, List, [], ◌∷◌, ◌++◌, none, some, arith, length, ap, ◌∙◌, map,
}
use mathlib.Core.List.{append-nil, append_assoc}
use zk_ress.Download.{Network, PeerRequestError}
use zk_ress.Download.Bodies.{
  BodiesDownloadState, skip, zip_blocks, missing, take_blocks, start, request_missing, match_bodies,
  finish, on_bodies_response, poll,
}
use zk_ress.Env.{Result, ok}
use zk_ress.Primitives.{SealedHeader, Block}

module _ {B P : Type 0} (net : Network B P) where
  -- Each body fits the header in its place.
  abbrev pub Fit : List SealedHeader → List B → Type 0
  Fit hs [] = Unit
  Fit [] (b ∷ bs) = ⊥
  Fit (h ∷ hs) (b ∷ bs) = (net.body_fits b h ≡ true) × Fit hs bs

  -- Bodies that all fit are kept in their order.
  match_bodies-Fit :
      (hs : List SealedHeader) (bodies : List B) (this : BodiesDownloadState B)
      → Fit hs bodies
      → match_bodies net hs bodies this ≡ record this { bodies = this.bodies ++ bodies }
  unfolding match_bodies
  match_bodies-Fit [] [] this v = rw (append-nil this.bodies)
  match_bodies-Fit [] (b ∷ bs) this v = absurd v
  match_bodies-Fit (h ∷ hs) [] this v = match_bodies-Fit hs [] this tt
  match_bodies-Fit (h ∷ hs) (b ∷ bs) this (fits, v) = rw (
    fits,
    match_bodies-Fit hs bs (record this { bodies = this.bodies ++ b ∷ [] }) v,
    append_assoc this.bodies (b ∷ []) bs,
  )

  skip_all :
      (hs : List SealedHeader) (bodies : List B)
      → length bodies ≡ length hs
      → skip (length bodies) hs ≡ []
  unfolding skip
  skip_all [] [] e = refl
  skip_all [] (b ∷ bs) e = absurd (omega (arith, e))
  skip_all (h ∷ hs) [] e = absurd (omega (arith, e))
  skip_all (h ∷ hs) (b ∷ bs) e = skip_all hs bs (omega (arith, e))

  finish_full :
      (hs : List SealedHeader) (bodies : List B) (requested : List ℕ)
      → length bodies ≡ length hs
      → (finish net (record { headers = hs; requested = requested; bodies = bodies })).1
        ≡ some (zip_blocks hs bodies)
  unfolding finish missing take_blocks
  finish_full hs bodies requested e = rw (skip_all hs bodies e, finish)

  -- With a body for every header, each fitting, one answer ends the download of the bodies with
  -- the headers in their order, each with its body.
  pub on_bodies_response-Fit :
      (hs : List SealedHeader) (body : B) (bodies : List B)
      → Fit hs (body ∷ bodies)
      → length (body ∷ bodies) ≡ length hs
      → (on_bodies_response net (ok (body ∷ bodies)) (start hs)).1
        ≡ some (zip_blocks hs (body ∷ bodies))
  unfolding on_bodies_response start skip
  on_bodies_response-Fit hs body bodies v e =
      ap (λ s. (finish net s).1) (match_bodies-Fit hs (body ∷ bodies) (start hs) v)
      ∙ finish_full hs (body ∷ bodies) (map (λ x. x.hash) hs) e

  mispaired :
      (h h' : SealedHeader) (b b' : B)
      → net.body_fits b h ≡ false
      → net.body_fits b' h' ≡ true
      → on_bodies_response net (ok (b ∷ b' ∷ [])) (start (h ∷ h' ∷ []))
        ≡ (record { headers = h ∷ h' ∷ []; requested = h'.hash ∷ []; bodies = b' ∷ [] }, none)
  unfolding on_bodies_response start skip match_bodies finish missing request_missing
  mispaired h h' b b' unfit fit = rw (unfit, fit)

  completed :
      (h h' : SealedHeader) (b' b'' : B)
      → net.body_fits b'' h' ≡ true
      → (on_bodies_response net
          (ok (b'' ∷ []))
          (record { headers = h ∷ h' ∷ []; requested = h'.hash ∷ []; bodies = b' ∷ [] })).1
        ≡ some (zip_blocks (h ∷ h' ∷ []) (b' ∷ b'' ∷ []))
  unfolding on_bodies_response skip match_bodies finish missing request_missing take_blocks
  completed h h' b' b'' fit = rw (fit)

  poll_goes :
      (response : Result (List B) PeerRequestError)
      (responses : List (Result (List B) PeerRequestError)) (this next : BodiesDownloadState B)
      → on_bodies_response net response this ≡ (next, none)
      → poll net (response ∷ responses) this ≡ poll net responses next
  unfolding poll
  poll_goes response responses this next e =
      rw (ap (λ r. r.1) e, poll) (ap (λ r. poll net responses r.0) e)

  poll_ends :
      (response : Result (List B) PeerRequestError)
      (responses : List (Result (List B) PeerRequestError)) (this : BodiesDownloadState B)
      (blocks : List (Block B))
      → (on_bodies_response net response this).1 ≡ some blocks
      → (poll net (response ∷ responses) this).1 ≡ some blocks
  unfolding poll
  poll_ends response responses this blocks e = rw (e, poll)

  -- If of two bodies the first does not fit the first header and the second fits the second, and
  -- the next answer is a body that fits the second header, the download ends with the second body
  -- under the first header.
  pub poll_mispairs :
      (h h' : SealedHeader) (b b' b'' : B)
      → net.body_fits b h ≡ false
      → net.body_fits b' h' ≡ true
      → net.body_fits b'' h' ≡ true
      → (poll net (ok (b ∷ b' ∷ []) ∷ ok (b'' ∷ []) ∷ []) (start (h ∷ h' ∷ []))).1
        ≡ some (zip_blocks (h ∷ h' ∷ []) (b' ∷ b'' ∷ []))
  poll_mispairs h h' b b' b'' unfit fit fit' =
      ap (λ r. r.1)
        (poll_goes (ok (b ∷ b' ∷ [])) (ok (b'' ∷ []) ∷ []) (start (h ∷ h' ∷ [])) _
          (mispaired h h' b b' unfit fit))
      ∙ poll_ends (ok (b'' ∷ [])) [] _ _ (completed h h' b' b'' fit')
