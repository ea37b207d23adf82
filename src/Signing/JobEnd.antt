-- ===== src/Signing/JobEnd.antt =====
-- workers/escri.py, `_process_job`: its exception handlers. Their own UPDATE of the job gets through;
-- where it does not, the job stays in process until the sweeper takes it.
use gdi_backend.Prelude.{
  ℕ, Bool, true, false, ◌&&◌, ◌||◌, not, Option, none, some, [], ◌∷◌, ◌++◌, if◌then◌else◌,
}
use gdi_backend.Prelude.Texts.{Text, codes}
use gdi_backend.Numbering.Tables.{reserved, OfficialDocument}
use gdi_backend.Numbering.Queries.{is_confirming, truthy_text}
use gdi_backend.Numbering.Lifecycle.{cancel_number}
use gdi_backend.Signing.Claims.{requeue_in_flight_on_cancel}
use gdi_backend.Signing.Closing.{mark_session_signed, mark_session_failed, requeue_session_pending}
use gdi_backend.Signing.Orphans.{is_confirmed}
use gdi_backend.Signing.Failures.{Failure, failure_code}
use gdi_backend.Signing.Job.{
  rejected_in_queue, cancelled_error, breaker_open, failed_as, JobCalls, Office, Ending, finished,
  stopped, on_sessions, official_row, is_confirmed_row, job_body,
}

module _ (c : JobCalls) where
  abbrev pub fail_job : Text → Office → Office
  fail_job reason w = on_sessions c (mark_session_failed c.now c.session reason) w

  abbrev pub cancel_ticket : Text → Bool → Office → Option ℕ → Office
  cancel_ticket reason resume w none = w
  cancel_ticket reason resume w (some ticket) =
      let db = (cancel_number c.document reason (some ticket) true (reserved ∷ []) w.numbers).1 in
      if not resume && c.cancels then record w { numbers = db } else w

  -- `cancel_number` on the own reservation, tried where nothing was confirmed; default states.
  abbrev pub cancel_own : Text → Bool → Office → Office
  cancel_own reason resume w = cancel_ticket reason resume w c.reservation

  -- The row of the document, where the read gets through.
  abbrev pub read_row : Office → Option OfficialDocument
  read_row w = if c.reads_status then official_row c w else none

  -- `CloudflareR2Client` has no `delete_oficial`, so that the call of it raises, which the handler
  -- passes over: the PDF stays.
  unfoldable pub on_rejected : Bool → Option Text → Office → Office
  on_rejected resume number w =
      if is_confirmed_row c (read_row w)
      then fail_job (codes "confirmed_and_rejected_conflict") w
      else fail_job (codes "document_no_longer_signable")
          (cancel_own (codes "document_rejected_while_in_queue") resume w)

  abbrev pub is_past_reserved : Option OfficialDocument → Bool
  is_past_reserved none = false
  is_past_reserved (some d) = is_confirming d.status || is_confirmed d.status

  abbrev pub sign_superseded : Option Text → Office → Office
  sign_superseded none w = w
  sign_superseded (some number) w =
      if c.closes_late
      then on_sessions c
          (λ rows. (mark_session_signed c.worker c.now c.session (some number) rows).1) w
      else w

  abbrev pub end_superseded : Option Text → Office → Office
  end_superseded number w =
      if is_confirmed_row c (read_row w) then sign_superseded (truthy_text number) w else w

  unfoldable pub on_failed : Failure → Bool → Option Text → Office → Office
  on_failed f resume number w =
      if is_past_reserved (read_row w)
      then end_superseded number w
      else fail_job (failure_code f)
          (cancel_own (codes "escri_worker_failed:" ++ failure_code f) resume w)

  abbrev pub job_handled : Ending → Office
  job_handled (finished w) = w
  job_handled (stopped rejected_in_queue resume number w) = on_rejected resume number w
  job_handled (stopped cancelled_error resume number w) =
      on_sessions c (requeue_in_flight_on_cancel c.worker c.now c.session) w
  job_handled (stopped (breaker_open n) resume number w) =
      on_sessions c (requeue_session_pending c.now c.session n) w
  job_handled (stopped (failed_as f) resume number w) = on_failed f resume number w

  -- `_process_job`
  unfoldable pub process_job : Office → Office
  process_job w = job_handled (job_body c w)
