-- ===== src/Signing/JobKeeps.antt =====
-- workers/escri.py, `_process_job`: a condition on the tables that the calls of a job keep, its exception
-- handlers included.
use gdi_backend.Prelude.{
  ℕ, Bool, true, false, ◌&&◌, not, Option, none, some, List, [], ◌∷◌, ◌++◌, if◌then◌else◌, ◌≡◌,
  refl,
}
use gdi_backend.Prelude.Texts.{Text, codes}
use gdi_backend.Numbering.Tables.{reserved}
use gdi_backend.Numbering.Queries.{truthy_text}
use gdi_backend.Numbering.Lifecycle.{cancel_number}
use gdi_backend.Signing.Tables.{Session}
use gdi_backend.Signing.Claims.{requeue_in_flight_on_cancel}
use gdi_backend.Signing.Closing.{mark_session_signed, mark_session_failed, requeue_session_pending}
use gdi_backend.Signing.Failures.{Failure, failure_code}
use gdi_backend.Signing.Job.{
  Problem, rejected_in_queue, cancelled_error, breaker_open, failed_as, JobCalls, Office, Ending,
  finished, stopped, on_sessions, is_confirmed_row, try_call,
}
use gdi_backend.Signing.JobEnd.{
  fail_job, cancel_ticket, read_row, on_rejected, is_past_reserved, sign_superseded, on_failed,
  job_handled,
}

-- The body ends in tables that the condition holds of.
abbrev pub EndsIn : (Office → Type 0) → Ending → Type 0
EndsIn P (finished v) = P v
EndsIn P (stopped p resume number v) = P v

module _ (P : Office → Type 0) where
  pub try_call-EndsIn :
      (c : JobCalls) (o : Option Problem) (resume : Bool) (number : Option Text) (v : Office)
      (next : Ending)
      → P v
      → EndsIn P next
      → EndsIn P (try_call c o resume number v next)
  try_call-EndsIn c none resume number v next here later = later
  try_call-EndsIn c (some p) resume number v next here later = here

  pub if-EndsIn :
      (b : Bool) (x y : Ending)
      → (b ≡ true → EndsIn P x)
      → EndsIn P y
      → EndsIn P (if b then x else y)
  if-EndsIn true x y f h = f refl
  if-EndsIn false x y f h = h

  pick : (b : Bool) (x y : Office) → P x → P y → P (if b then x else y)
  pick true x y h k = h
  pick false x y h k = k

-- The handlers write the job and cancel the own RESERVED number, and nothing else.
module _ (c : JobCalls) (P : Office → Type 0)
    (rows : (f : List Session → List Session) (v : Office) → P v → P (on_sessions c f v))
    (frees : (reason : Text) (ticket : ℕ) (v : Office)
      → P v
      → P (record v {
        numbers = (cancel_number c.document reason (some ticket) true (reserved ∷ []) v.numbers).1;
      })) where
  fail_job-keeps : (reason : Text) (v : Office) → P v → P (fail_job c reason v)
  fail_job-keeps reason v h = rows (mark_session_failed c.now c.session reason) v h

  cancel_ticket-keeps :
      (reason : Text) (resume : Bool) (v : Office) (o : Option ℕ)
      → P v
      → P (cancel_ticket c reason resume v o)
  cancel_ticket-keeps reason resume v none h = h
  cancel_ticket-keeps reason resume v (some ticket) h =
      pick P (not resume && c.cancels) _ _ (frees reason ticket v h) h

  on_rejected-keeps :
      (resume : Bool) (number : Option Text) (v : Office) → P v → P (on_rejected c resume number v)
  unfolding on_rejected
  on_rejected-keeps resume number v h =
      pick P (is_confirmed_row c (read_row c v)) _ _
        (fail_job-keeps (codes "confirmed_and_rejected_conflict") v h)
        (fail_job-keeps (codes "document_no_longer_signable") _
          (cancel_ticket-keeps (codes "document_rejected_while_in_queue") resume v c.reservation h))

  sign_superseded-keeps : (v : Office) (o : Option Text) → P v → P (sign_superseded c o v)
  sign_superseded-keeps v none h = h
  sign_superseded-keeps v (some number) h =
      pick P c.closes_late _ _
        (rows (λ rs. (mark_session_signed c.worker c.now c.session (some number) rs).1) v h) h

  on_failed-keeps :
      (f : Failure) (resume : Bool) (number : Option Text) (v : Office)
      → P v
      → P (on_failed c f resume number v)
  unfolding on_failed
  on_failed-keeps f resume number v h =
      pick P (is_past_reserved c (read_row c v)) _ _
        (pick P (is_confirmed_row c (read_row c v)) _ _
          (sign_superseded-keeps v (truthy_text number) h) h)
        (fail_job-keeps (failure_code f) _ (
          cancel_ticket-keeps (codes "escri_worker_failed:" ++ failure_code f) resume v
            c.reservation h))

  pub job_handled-keeps : (f : Ending) → EndsIn P f → P (job_handled c f)
  job_handled-keeps (finished v) h = h
  job_handled-keeps (stopped rejected_in_queue resume number v) h =
      on_rejected-keeps resume number v h
  job_handled-keeps (stopped cancelled_error resume number v) h =
      rows (requeue_in_flight_on_cancel c.worker c.now c.session) v h
  job_handled-keeps (stopped (breaker_open n) resume number v) h =
      rows (requeue_session_pending c.now c.session n) v h
  job_handled-keeps (stopped (failed_as f) resume number v) h = on_failed-keeps f resume number v h
