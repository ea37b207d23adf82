-- ===== src/Signing/Runs.antt =====
-- The statements of workers/escri.py, workers/sweeper_escri.py and the endpoints on
-- public.signing_sessions as steps, in any order and by any worker, and what each one may do to a row.
pub mod Rows
pub mod Keys
pub mod WorkerSteps
pub mod SweeperSteps
pub mod Changes
pub mod WellFormed
pub mod Closed
use gdi_backend.Prelude.{
  ℕ, ◌≡◌, refl, Bool, true, false, ◌&&◌, not, Option, none, some, List, [], ◌∷◌, arith, ◌==◌,
  any_of, Bool-cases, inl, inr, if◌then◌else◌, update_if,
}
use gdi_backend.Prelude.Texts.{Text}
use gdi_backend.Numbering.Tables.{OfficialDocument}
use gdi_backend.Signing.Tables.{
  Status, pending, processing, JobType, Payload, Session, Draft, is_live,
}
use gdi_backend.Signing.Claims.{
  claim_one, requeue_in_flight_on_cancel, renew_claim, upload_fence, with_id,
}
use gdi_backend.Signing.Closing.{
  mark_session_signed, mark_dts_signed, mark_session_failed, requeue_session_pending, requeue_with,
  requeue_guard_unverifiable, requeue_or_fail_post_upload, mark_uploaded, save_unsigned_sha256,
  mark_publish_failed,
}
use gdi_backend.Signing.Queue.{
  insert_soft, enqueue_sign_session, enqueue_common_session, expire_pending_signing_sessions,
}
use gdi_backend.Signing.Poll.{get_async_poll_status}
use gdi_backend.Signing.Sweeper.{
  expire_pending, handle_processing_expired, handle_dts_processing_expired,
  handle_common_processing_expired,
}

-- A waiting job is claimed by nobody, and a job in process by somebody.
abbrev pub fits : Status → Option ℕ → Bool
fits pending none = true
fits pending (some w) = false
fits processing none = false
fits processing (some w) = true
fits _ _ = true

abbrev pub claim_fits : Session → Bool
claim_fits r = fits r.status r.claimed_by

-- A row stays the row of its job, and what is closed stays as it was closed.
pub record Allowed (r r' : Session) : Type 0 where
  pub same_id : r'.session_id ≡ r.session_id
  pub same_schema : r'.schema_name ≡ r.schema_name
  pub same_document : r'.document_id ≡ r.document_id
  pub same_user : r'.user_id ≡ r.user_id
  pub same_type : r'.job_type ≡ r.job_type
  pub stays_closed :
      is_live r.status ≡ false → (r'.status ≡ r.status) × (r'.failure_reason ≡ r.failure_reason)
  pub keeps_fit : claim_fits r ≡ true → claim_fits r' ≡ true

pub data Evolves : List Session → List Session → Type 0 where
  nothing : Evolves [] []
  row :
      {r r' : Session} {rows rows' : List Session}
      → Allowed r r'
      → Evolves rows rows'
      → Evolves (r ∷ rows) (r' ∷ rows')

-- The statements, on any arguments. An INSERT draws a uuid4 that no row has.
pub data Step : List Session → List Session → Type 0 where
  claims :
      (worker now : ℕ) (locked : ℕ → Bool) (rows : List Session)
      → Step rows (claim_one worker now locked rows).1
  cancels :
      (worker now id : ℕ) (rows : List Session)
      → Step rows (requeue_in_flight_on_cancel worker now id rows)
  renews : (worker now id : ℕ) (rows : List Session) → Step rows (renew_claim worker now id rows).1
  fences : (worker now id : ℕ) (rows : List Session) → Step rows (upload_fence worker now id rows).1
  signs :
      (worker now id : ℕ) (number : Option Text) (rows : List Session)
      → Step rows (mark_session_signed worker now id number rows).1
  signs_dts : (now id : ℕ) (rows : List Session) → Step rows (mark_dts_signed now id rows)
  fails :
      (now id : ℕ) (reason : Text) (rows : List Session)
      → Step rows (mark_session_failed now id reason rows)
  requeues :
      (now id retry_after : ℕ) (rows : List Session)
      → Step rows (requeue_session_pending now id retry_after rows)
  guards :
      (limit now id : ℕ) (payload : Payload) (origin : Text) (retry_after : ℕ) (rows : List Session)
      → Step rows (requeue_guard_unverifiable limit now id payload origin retry_after rows)
  stamps_later :
      (now id ttl retry_after : ℕ) (payload : Payload) (rows : List Session)
      → Step rows (requeue_with now id ttl retry_after payload rows)
  retries :
      (now id : ℕ) (reason : Text) (rows : List Session)
      → Step rows (requeue_or_fail_post_upload now id reason rows)
  uploads : (now id : ℕ) (rows : List Session) → Step rows (mark_uploaded now id rows)
  hashes :
      (now id digest : ℕ) (rows : List Session)
      → Step rows (save_unsigned_sha256 now id digest rows)
  publishes :
      (now id : ℕ) (payload : Payload) (rows : List Session)
      → Step rows (mark_publish_failed now id payload rows)
  rejects :
      (now document schema : ℕ) (rows : List Session)
      → Step rows (expire_pending_signing_sessions now document schema rows)
  polls :
      (answers : Bool) (now id user schema : ℕ) (drafts : List Draft) (rows : List Session)
      → Step rows (get_async_poll_status answers now id user schema drafts rows).1
  expires :
      (now schema : ℕ) (job : JobType) (rows : List Session)
      → Step rows (expire_pending now schema job rows)
  recovers :
      (now schema : ℕ) (od : ℕ → Option OfficialDocument) (rows : List Session)
      → Step rows (handle_processing_expired now schema od rows)
  recovers_dts :
      (now schema : ℕ) (rows : List Session)
      → Step rows (handle_dts_processing_expired now schema rows)
  recovers_common :
      (now schema : ℕ) (rows : List Session)
      → Step rows (handle_common_processing_expired now schema rows)
  enqueues :
      (id born now schema document user reservation : ℕ) (number : Text) (rows : List Session)
      → any_of (with_id id) rows ≡ false
      → Step rows (enqueue_sign_session id born now schema document user reservation number rows).1
  enqueues_common :
      (conflicts : Session → List Session → Bool) (id born now schema document user : ℕ)
      (rows : List Session)
      → any_of (with_id id) rows ≡ false
      → Step rows (enqueue_common_session conflicts id born now schema document user rows).1
  inserts :
      (s : Session) (rows : List Session)
      → any_of (with_id s.session_id) rows ≡ false
      → claim_fits s ≡ true
      → Step rows (insert_soft s rows)

pub data Run : List Session → List Session → Type 0 where
  stop : (rows : List Session) → Run rows rows
  then_step :
      {rows rows' rows'' : List Session} → Run rows rows' → Step rows' rows'' → Run rows rows''
