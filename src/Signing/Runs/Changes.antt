-- ===== src/Signing/Runs/Changes.antt =====
-- A step on public.signing_sessions either changes rows in an allowed way or adds one new row.
use gdi_backend.Prelude.{
  ℕ, ◌+◌, ◌≡◌, refl, Bool, true, false, ◌&&◌, none, some, List, [], ◌∷◌, ◌++◌, arith, ltb,
  if◌then◌else◌, Bool-cases, inl, inr, any_of,
}
use gdi_backend.Prelude.Texts.{Text, codes}
use gdi_backend.Signing.Tables.{
  Session, sign, sign_common, dts, pending, processing, seconds, minutes, empty_payload, same_job,
  row_in,
}
use gdi_backend.Signing.Claims.{with_id, handed_back, renewed, touched}
use gdi_backend.Signing.Closing.{
  signed_row, uploaded_row, hashed_row, unpublished_row, pending_ttl_minutes,
}
use gdi_backend.Signing.Queue.{
  breaks_index, enqueue_sign_session, enqueue_common_session, new_session, with_official_number,
  is_rejected, expire_pending_signing_sessions,
}
use gdi_backend.Signing.Sweeper.{is_overdue, offline_reason, reclaimed, reclaimed_dts}
use gdi_backend.Signing.Runs.{claim_fits, Evolves, Step}
use gdi_backend.Signing.Runs.Keys.{UniqueIds}
use gdi_backend.Signing.Runs.Rows.{Evolves_refl, update_if-Evolves, note-Allowed, live-Allowed}
use gdi_backend.Signing.Runs.WorkerSteps.{
  claim_one-Evolves, held-Evolves, mark_session_signed-Evolves, mark_session_failed-Evolves,
  requeued-Evolves, requeue_with-Evolves, requeue_guard_unverifiable-Evolves, noted-Evolves,
  requeue_or_fail_post_upload-Evolves,
}
use gdi_backend.Signing.Runs.SweeperSteps.{
  expired-Evolves, handle_processing_expired-Evolves, overdue-Evolves,
  get_async_poll_status-Evolves,
}

pub data Change : List Session → List Session → Type 0 where
  evolved : {rows rows' : List Session} → Evolves rows rows' → Change rows rows'
  inserted :
      (s : Session) (rows : List Session)
      → any_of (with_id s.session_id) rows ≡ false
      → claim_fits s ≡ true
      → breaks_index s rows ≡ false
      → Change rows (rows ++ (s ∷ []))

rejects-Evolves :
    (now document schema : ℕ) (rows : List Session)
    → Evolves rows (expire_pending_signing_sessions now document schema rows)
unfolding expire_pending_signing_sessions
rejects-Evolves now document schema rows =
    expired-Evolves (is_rejected document schema) (codes "document_rejected") now rows
      (λ r h. ground (arith, h))

enqueue_sign-Change :
    (id born now schema document user reservation : ℕ) (number : Text) (rows : List Session)
    → any_of (with_id id) rows ≡ false
    → Change rows (enqueue_sign_session id born now schema document user reservation number rows).1
unfolding enqueue_sign_session
enqueue_sign-Change id born now schema document user reservation number rows fresh =
    let s =
      new_session id born schema document (some reservation) (some user) sign
        (now + minutes pending_ttl_minutes) (with_official_number number) in
    elim (Bool-cases (breaks_index s rows)) [
      | inl e ↦ rw e (Change.evolved (Evolves_refl rows))
      | inr e ↦ rw e (Change.inserted s rows fresh refl e)
    ]

-- A common job is not in the index of the jobs of type 'sign'.
common_breaks_nothing :
    (s : Session) (rows : List Session) → s.job_type ≡ sign_common → breaks_index s rows ≡ false
unfolding breaks_index
common_breaks_nothing s rows h = rw h refl

enqueue_common-Change :
    (conflicts : Session → List Session → Bool) (id born now schema document user : ℕ)
    (rows : List Session)
    → any_of (with_id id) rows ≡ false
    → Change rows (enqueue_common_session conflicts id born now schema document user rows).1
unfolding enqueue_common_session
enqueue_common-Change conflicts id born now schema document user rows fresh =
    let s =
      new_session id born schema document none (some user) sign_common
        (now + minutes pending_ttl_minutes) empty_payload in
    elim (Bool-cases (conflicts s rows)) [
      | inl e ↦ rw e (Change.evolved (Evolves_refl rows))
      | inr e ↦ rw e (Change.inserted s rows fresh refl (common_breaks_nothing s rows refl))
    ]

pub Step-Change : {rows rows' : List Session} → UniqueIds rows → Step rows rows' → Change rows rows'
Step-Change u (Step.claims w now locked rows) =
    Change.evolved (claim_one-Evolves w now locked rows u)
Step-Change u (Step.signs w now id number rows) =
    Change.evolved (mark_session_signed-Evolves w now id number rows)
Step-Change u (Step.fails now id reason rows) =
    Change.evolved (mark_session_failed-Evolves now id reason rows)
Step-Change u (Step.cancels w now id rows) =
    Change.evolved
      (held-Evolves w id (handed_back now) rows (λ r live. live-Allowed r live (λ k. refl)))
Step-Change u (Step.renews w now id rows) =
    Change.evolved (held-Evolves w id (renewed now) rows (λ r live. note-Allowed r))
Step-Change u (Step.fences w now id rows) =
    Change.evolved (held-Evolves w id (touched now) rows (λ r live. note-Allowed r))
Step-Change u (Step.signs_dts now id rows) = Change.evolved (
    update_if-Evolves (λ r. row_in processing id r && same_job r.job_type dts) (signed_row none now)
      rows (λ r m h. live-Allowed r (ground (arith, h)) (λ k. refl)))
Step-Change u (Step.requeues now id after rows) = Change.evolved (
    requeued-Evolves now id pending_ttl_minutes
      (if ltb 0 after then some (now + seconds after) else none) rows)
Step-Change u (Step.guards limit now id payload origin after rows) =
    Change.evolved (requeue_guard_unverifiable-Evolves limit now id payload origin after rows)
Step-Change u (Step.stamps_later now id ttl after payload rows) =
    Change.evolved (requeue_with-Evolves now id ttl after payload rows)
Step-Change u (Step.retries now id reason rows) =
    Change.evolved (requeue_or_fail_post_upload-Evolves now id reason rows)
Step-Change u (Step.uploads now id rows) =
    Change.evolved (noted-Evolves (with_id id) (uploaded_row now) rows (λ r. note-Allowed r))
Step-Change u (Step.hashes now id digest rows) =
    Change.evolved (noted-Evolves (with_id id) (hashed_row now digest) rows (λ r. note-Allowed r))
Step-Change u (Step.publishes now id payload rows) =
    Change.evolved
      (noted-Evolves (with_id id) (unpublished_row now payload) rows (λ r. note-Allowed r))
Step-Change u (Step.rejects now document schema rows) =
    Change.evolved (rejects-Evolves now document schema rows)
Step-Change u (Step.polls answers now id user schema drafts rows) =
    Change.evolved (get_async_poll_status-Evolves answers now id user schema drafts rows)
Step-Change u (Step.expires now schema job rows) = Change.evolved (
    expired-Evolves (is_overdue now schema job pending) offline_reason now rows
      (λ r h. ground (arith, h)))
Step-Change u (Step.recovers now schema od rows) =
    Change.evolved (handle_processing_expired-Evolves now schema od rows)
Step-Change u (Step.recovers_dts now schema rows) = Change.evolved (
    overdue-Evolves now schema dts (reclaimed_dts now) rows
      (λ r live. live-Allowed r live (λ k. refl)))
Step-Change u (Step.recovers_common now schema rows) = Change.evolved (
    overdue-Evolves now schema sign_common (reclaimed now 30) rows
      (λ r live. live-Allowed r live (λ k. refl)))
Step-Change u (Step.enqueues id born now schema document user reservation number rows fresh) =
    enqueue_sign-Change id born now schema document user reservation number rows fresh
Step-Change u (Step.enqueues_common conflicts id born now schema document user rows fresh) =
    enqueue_common-Change conflicts id born now schema document user rows fresh
Step-Change u (Step.inserts s rows fresh fit) = elim (Bool-cases (breaks_index s rows)) [
  | inl e ↦ rw e (Change.evolved (Evolves_refl rows))
  | inr e ↦ rw e (Change.inserted s rows fresh fit e)
]
