-- ===== src/Signing/Common.antt =====
-- workers/escri.py, `_process_common_job`: the job of a signer that does not number the document, from
-- the PDF in process to the signed PDF that is put back.
use gdi_backend.Prelude.{
  ℕ, Bool, true, false, ◌&&◌, Option, none, some, List, ◌==◌, if◌then◌else◌, count_if, find_if,
  update_if,
}
use gdi_backend.Prelude.Texts.{Text, codes}
use gdi_backend.Signing.Tables.{Payload, Session, Signer, empty_payload}
use gdi_backend.Signing.Claims.{with_id, upload_fence}
use gdi_backend.Signing.Closing.{
  mark_session_signed, mark_session_failed, requeue_or_fail_post_upload, mark_uploaded,
  save_unsigned_sha256,
}
use gdi_backend.Signing.Lock.{
  Pdf, tosign_key, inprocess_key, get_object, r2_delete, Desk, Redis, Net, Release,
  release_signing_lock_success, release_signing_lock_fail,
}
use gdi_backend.Signing.Failures.{Failure, other, failure_code}

pub data Notarized : Type 0 where
  signed_as : Pdf → Notarized
  notary_failed : Failure → Notarized

-- The job, and what each call that the code makes gives: `none` where it gets through, else the
-- exception. `lost_before` and `lost_after` say whether the heartbeat has lost the claim by then.
pub record Calls : Type 0 where
  pub worker : ℕ
  pub now : ℕ
  pub session : ℕ
  pub document : ℕ
  pub user : ℕ
  pub redis : Redis
  pub sha256 : Pdf → ℕ
  pub notary : Pdf → Notarized
  pub reads_signer : Option Failure
  pub reads_payload : Option Failure
  pub reads_tosign : Option Failure
  pub lost_before : Bool
  pub reads_inprocess : Option Failure
  pub reads_tosign_again : Option Failure
  pub saves_hash : Option Failure
  pub reads_signer_data : Option Failure
  pub breaker : Option Failure
  pub lost_after : Bool
  pub fences : Option Failure
  pub uploads : Option Failure
  pub marks_released : Bool
  pub deletes : ℕ → Bool
  pub marks : Option Failure
  pub updates_signer : Option Failure
  pub closes : Option Failure
  pub audits : Option Failure
  pub cleans : Bool
  pub rollback : Net

pub record Work : Type 0 where
  pub desk : Desk
  pub signers : List Signer

-- How the body ends: it returns, or an exception leaves it, with `signed_uploaded` as it is then.
pub data Flow : Type 0 where
  returns : Work → Flow
  raising : Failure → Bool → Work → Flow

-- A call and what comes after it.
abbrev pub call : Option Failure → Bool → Work → Flow → Flow
call none uploaded w next = next
call (some f) uploaded w next = raising f uploaded w

abbrev pub with_sessions : (List Session → List Session) → Work → Work
with_sessions f w = record w { desk = record w.desk { sessions = f w.desk.sessions } }

abbrev pub runtime_error : Text → Failure
runtime_error message = other (codes "RuntimeError") message

abbrev pub is_signer : Calls → Signer → Bool
is_signer c r = r.document_id == c.document && r.user_id == c.user

abbrev pub sign_row : ℕ → Signer → Signer
sign_row now r = record r { signed_at = some now }

abbrev pub closed : Calls → Work → Work
closed c w = with_sessions (λ rows. (mark_session_signed c.worker c.now c.session none rows).1) w

abbrev pub cleaned : Calls → Work → Work
cleaned c w =
    if c.cleans
    then record w {
      desk = record w.desk { bucket = r2_delete (inprocess_key c.document) w.desk.bucket };
    }
    else w

-- `_update_signer_signed_with_retry`, where an UPDATE of no row raises, then the end of the job.
unfoldable pub sign_and_close : Calls → Work → (Work → Work) → Flow
sign_and_close c w finish =
    if count_if (is_signer c) w.signers == 0
    then raising (runtime_error (codes "No se pudo actualizar el estado del firmante")) true w
    else (let w' = record w { signers = update_if (is_signer c) (sign_row c.now) w.signers } in
        call c.closes true w' (call c.audits true (closed c w') (returns (finish (closed c w')))))

-- The marker of the upload, the signer, the job: what is left once the signed PDF is in place.
unfoldable pub after_upload : Calls → Work → (Work → Work) → Flow
after_upload c w finish =
    let w' = with_sessions (mark_uploaded c.now c.session) w in
    call c.marks true w (call c.updates_signer true w' (sign_and_close c w' finish))

-- `_resume_after_upload`
abbrev pub resume : Calls → Work → Flow
resume c w = after_upload c w (cleaned c)

abbrev pub gets_through : Option Failure → Bool
gets_through none = true
gets_through (some f) = false

abbrev pub release_of : Calls → Pdf → Option Failure → Release
release_of c pdf o = record {
  signed_pdf = pdf;
  is_numerator = false;
  number = none;
  session_id = some c.session;
  puts = gets_through o;
  marks = c.marks_released;
  deletes = c.deletes;
}

abbrev pub uploaded_or : Calls → Work → Option Failure → Option Desk → Flow
uploaded_or c w o (some desk) = after_upload c (record w { desk = desk }) (λ w'. w')
uploaded_or c w none none = returns w
uploaded_or c w (some f) none = raising f false w

abbrev pub upload_on : Calls → Work → Pdf → Option Failure → Flow
upload_on c w pdf o =
    uploaded_or c w o
      (release_signing_lock_success c.redis (release_of c pdf o) c.now c.document w.desk)

unfoldable pub upload : Calls → Work → Pdf → Flow
upload c w pdf = upload_on c w pdf c.uploads

unfoldable pub fenced : Calls → Work → Pdf → Flow
fenced c w pdf =
    let (held, rows) = upload_fence c.worker c.now c.session w.desk.sessions in
    let w' = with_sessions (λ _. rows) w in
    call c.fences false w (if held then upload c w' pdf else returns w)

abbrev pub notarized : Calls → Work → Notarized → Flow
notarized c w (signed_as pdf) = fenced c w pdf
notarized c w (notary_failed f) = raising f false w

unfoldable pub sign_pdf : Calls → Work → Pdf → Flow
sign_pdf c w pdf =
    let w' = with_sessions (save_unsigned_sha256 c.now c.session (c.sha256 pdf)) w in
    call c.saves_hash false w (
      call c.reads_signer_data false w' (
        call c.breaker false w'
          (if c.lost_after then returns w' else notarized c w' (c.notary pdf))))

abbrev pub compare_tosign : Calls → Work → ℕ → Option Pdf → Flow
compare_tosign c w saved none =
    raising (runtime_error (codes "PDF ausente en R2 inprocess y tosign")) false w
compare_tosign c w saved (some pdf) =
    if c.sha256 pdf == saved
    then raising (runtime_error (codes "Lock R2 perdido")) false w
    else resume c w

-- Nothing in process: the upload of an earlier try may have gone through without its marker.
unfoldable pub no_inprocess : Calls → Work → Option ℕ → Flow
no_inprocess c w none = raising (runtime_error (codes "PDF no encontrado en R2 inprocess")) false w
no_inprocess c w (some saved) =
    call c.reads_tosign_again false w
      (compare_tosign c w saved (get_object (tosign_key c.document) w.desk.bucket))

abbrev pub take_pdf : Calls → Work → Option ℕ → Option Pdf → Flow
take_pdf c w saved none = no_inprocess c w saved
take_pdf c w saved (some pdf) = sign_pdf c w pdf

unfoldable pub from_inprocess : Calls → Work → Option ℕ → Flow
from_inprocess c w saved =
    if c.lost_before
    then returns w
    else call c.reads_inprocess false w
        (take_pdf c w saved (get_object (inprocess_key c.document) w.desk.bucket))

abbrev pub check_tosign : Calls → Work → ℕ → Option Pdf → Flow
check_tosign c w saved none = from_inprocess c w (some saved)
check_tosign c w saved (some pdf) =
    if c.sha256 pdf == saved then from_inprocess c w (some saved) else resume c w

abbrev pub by_hash : Calls → Work → Option ℕ → Flow
by_hash c w none = from_inprocess c w none
by_hash c w (some saved) =
    call c.reads_tosign false w
      (check_tosign c w saved (get_object (tosign_key c.document) w.desk.bucket))

abbrev pub row_payload : Option Session → Payload
row_payload none = empty_payload
row_payload (some r) = r.payload

abbrev pub payload_of : Calls → Work → Payload
payload_of c w = row_payload (find_if (with_id c.session) w.desk.sessions)

abbrev pub is_time : Option ℕ → Bool
is_time none = false
is_time (some t) = true

abbrev pub has_signed : Calls → Work → Bool
has_signed c w = elim (find_if (is_signer c) w.signers) [
  | none ↦ false
  | some r ↦ is_time r.signed_at
]

-- The body of the `try`.
unfoldable pub common_body : Calls → Work → Flow
common_body c w = call c.reads_signer false w (
    if has_signed c w
    then call c.closes false w (returns (closed c w))
    else call c.reads_payload false w (
        if (payload_of c w).signed_uploaded
        then resume c w
        else by_hash c w (payload_of c w).unsigned_sha256))

-- The handler.
abbrev pub handled : Calls → Flow → Work
handled c (returns w) = w
handled c (raising f true w) =
    with_sessions (requeue_or_fail_post_upload c.now c.session (failure_code f)) w
handled c (raising f false w) =
    let back = (release_signing_lock_fail c.rollback c.redis c.document w.desk).1 in
    with_sessions (mark_session_failed c.now c.session (failure_code f)) (record w { desk = back })

-- `_process_common_job`, on a job that this worker has claimed.
unfoldable pub process_common_job : Calls → Work → Work
process_common_job c w = handled c (common_body c w)
