-- ===== src/Signing/Poll.antt =====
-- services/documents/signing/async_poll_status.py: the state of a job as its user sees it, and the
-- session that is reconciled when the document is signed already.
use gdi_backend.Prelude.{
  ℕ, Bool, true, false, ◌&&◌, Option, none, some, List, ◌==◌, eq_some, if◌then◌else◌, find_if,
  update_if,
}
use gdi_backend.Prelude.Texts.{Text}
use gdi_backend.Numbering.Queries.{truthy_text}
use gdi_backend.Signing.Tables.{
  Status, pending, processing, signed, failed, expired, JobType, sign, sign_common,
  digital_complete, Session, Draft, is_signed_draft, is_live,
}
use gdi_backend.Signing.Closing.{signed_row}

pub data PublicStatus : Type 0 where
  as_queued as_processing as_signed as_failed as_expired : PublicStatus

-- `auto_link_results`, which the code passes on as it is, is left out.
pub record PollStatus : Type 0 where
  pub session_id : ℕ
  pub status : PublicStatus
  pub official_number : Option Text
  pub failure_reason : Option Text

-- job_type IN ('sign', 'sign_common', 'digital_complete')
abbrev pub is_polled_job : JobType → Bool
is_polled_job sign = true
is_polled_job sign_common = true
is_polled_job digital_complete = true
is_polled_job _ = false

abbrev pub polled_row : ℕ → Session → Bool
polled_row id r = r.session_id == id && is_polled_job r.job_type

abbrev pub public_status : Status → PublicStatus
public_status pending = as_queued
public_status processing = as_processing
public_status signed = as_signed
public_status failed = as_failed
public_status expired = as_expired

-- `doc and doc["status"] == "signed" and doc["document_number"]`
abbrev pub signed_number : Option Draft → Option Text
signed_number none = none
signed_number (some d) = if is_signed_draft d.status then truthy_text d.document_number else none

-- The number of the document, where the job is not closed and the document is signed.
unfoldable pub healed_number : List Draft → Session → Option Text
healed_number drafts r =
    if is_live r.status then signed_number (find_if (λ d. d.id == r.document_id) drafts) else none

abbrev pub live_row : ℕ → Session → Bool
live_row id r = r.session_id == id && is_live r.status

-- The UPDATE of the reconciliation, which is tried and may fail.
abbrev pub reconcile : Bool → ℕ → ℕ → Text → List Session → List Session
reconcile answers now id number rows =
    if answers then update_if (live_row id) (signed_row (some number) now) rows else rows

abbrev pub shown_number : Session → Option Text
shown_number r = elim r.status [ signed ↦ r.payload.official_number | _ ↦ none ]

abbrev pub poll_answer : Session → Option Text → PollStatus
poll_answer r none = record {
  session_id = r.session_id;
  status = public_status r.status;
  official_number = shown_number r;
  failure_reason = r.failure_reason;
}
poll_answer r (some n) = record {
  session_id = r.session_id;
  status = as_signed;
  official_number = some n;
  failure_reason = r.failure_reason;
}

abbrev pub poll_rows : Bool → ℕ → ℕ → Option Text → List Session → List Session
poll_rows answers now id none rows = rows
poll_rows answers now id (some n) rows = reconcile answers now id n rows

abbrev pub poll_row :
    Bool → ℕ → ℕ → ℕ → List Draft → List Session → Option Session → Option PollStatus × List Session
poll_row answers now user schema drafts rows none = (none, rows)
poll_row answers now user schema drafts rows (some r) =
    if r.schema_name == schema && eq_some r.user_id user
    then (
      some (poll_answer r (healed_number drafts r)),
      poll_rows answers now r.session_id (healed_number drafts r) rows,
    )
    else (none, rows)

-- `get_async_poll_status`; `answers` says whether the reconciling UPDATE gets through.
unfoldable pub get_async_poll_status :
    Bool → ℕ → ℕ → ℕ → ℕ → List Draft → List Session → Option PollStatus × List Session
get_async_poll_status answers now id user schema drafts rows =
    poll_row answers now user schema drafts rows (find_if (polled_row id) rows)
