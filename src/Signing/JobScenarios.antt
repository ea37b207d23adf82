-- ===== src/Signing/JobScenarios.antt =====
-- Runs of the worker's jobs (workers/escri.py) on concrete rows.
use gdi_backend.Prelude.{
  ℕ, ◌≡◌, refl, ◌&&◌, Bool, true, false, Option, none, some, [], ◌∷◌, Memᴰ, arith, ◌⊎◌, any_of,
  count_if, ◌∙◌, sym,
}
use gdi_backend.Prelude.Texts.{Text, codes}
use gdi_backend.Numbering.Tables.{ReservationStatus, OfficialDocument, reserved, confirmed}
use gdi_backend.Numbering.Lifecycle.{confirm_number, finalize_number}
use gdi_backend.Signing.Tables.{
  failed, Session, DraftStatus, Draft, sent_to_sign, rejected, Signer, empty_payload, row_in,
}
use gdi_backend.Signing.Confirming.{close_draft, has_reason}
use gdi_backend.Signing.Lock.{
  inprocess_key, get_object, working, refused, acquire_redis_lock, is_locked, acquire_signing_lock,
}
use gdi_backend.Signing.LockLaws.{sound}
use gdi_backend.Signing.Common.{signed_as, Calls, Work, common_body, process_common_job}
use gdi_backend.Signing.Job.{
  signature, JobCalls, Office, job_body, check_reservation, sign_document, confirm_and_upload,
  upload_oficial, close_document,
}
use gdi_backend.Signing.JobEnd.{on_rejected, process_job}
use gdi_backend.Signing.JobConsistent.{IsConsistent, HasOficial}
use gdi_backend.Signing.JobSigned.{process_job-delivers}
use gdi_backend.Signing.JobCompletes.{smooth, IsComplete, process_job-completes}
use gdi_backend.Signing.Scenarios.{queue, number_row, numbers}

-- Worker 8 has claimed job 1, on document 41, and every call gets through; the notary puts a 9 before.
abbrev calls : Calls
calls = record {
  worker = 8;
  now = 50;
  session = 1;
  document = 41;
  user = 5;
  redis = working;
  sha256 = λ pdf. count_if (λ b. true) pdf;
  notary = λ pdf. signed_as (9 ∷ pdf);
  reads_signer = none;
  reads_payload = none;
  reads_tosign = none;
  lost_before = false;
  reads_inprocess = none;
  reads_tosign_again = none;
  saves_hash = none;
  reads_signer_data = none;
  breaker = none;
  lost_after = false;
  fences = none;
  uploads = none;
  marks_released = true;
  deletes = λ n. true;
  marks = none;
  updates_signer = none;
  closes = none;
  audits = none;
  cleans = true;
  rollback = sound;
}

abbrev signer : Option ℕ → Signer
signer time = record { document_id = 41; user_id = 5; signed_at = time }

abbrev work : Option ℕ → Work
work time = record {
  desk = record { locks = []; bucket = (inprocess_key 41, 1 ∷ []) ∷ []; sessions = queue };
  signers = signer time ∷ [];
}

-- A job whose signer is marked as signed already is closed, and the PDF stays in process: the next
-- signer does not acquire the lock.
already_signed_blocks :
    (acquire_signing_lock sound working 200_000_000 41
      (process_common_job calls (work (some 20))).desk).0
    ≡ refused
unfolding process_common_job common_body get_object acquire_signing_lock acquire_redis_lock
    is_locked
already_signed_blocks = refl

abbrev job_calls : JobCalls
job_calls = record {
  worker = 8;
  now = 50;
  limit = 5;
  session = 1;
  document = 41;
  user = 5;
  reservation = some 71;
  payload = empty_payload;
  connects = none;
  reads_number = none;
  reads_reservation = true;
  prepares = none;
  lost = false;
  notary = signature (9 ∷ 1 ∷ []);
  confirms = none;
  reads_stale = true;
  fences = none;
  uploads = none;
  locates = none;
  finalizes = none;
  publishes = true;
  marks_document = none;
  closes = none;
  reads_status = true;
  cancels = true;
  closes_late = true;
}

abbrev draft_in : DraftStatus → Draft
draft_in status = record { id = 41; status = status; document_number = none }

abbrev office : DraftStatus → ReservationStatus → Office
office status number = record {
  sessions = queue;
  numbers = numbers (number_row 41 number ∷ []);
  drafts = draft_in status ∷ [];
  signers = signer none ∷ [];
  oficial = [];
}

only_row :
    (d : OfficialDocument) → Memᴰ d (number_row 41 reserved ∷ []) → d ≡ number_row 41 reserved
only_row d (Memᴰ.head e) = e
only_row d (Memᴰ.tail m) = elim m [ ]

number_row-IsConsistent : IsConsistent job_calls (office sent_to_sign reserved)
number_row-IsConsistent = record {
  one_row = λ d e m n mine own. only_row d m ∙ sym (only_row e n);
  number_agrees = λ d number m mine known. cc;
  confirmed_in_place = λ d m mine closed. let row = only_row d m in cc;
  repairs_confirmed = λ e. cc;
}

process_job-delivers_example :
    let v = process_job job_calls (office sent_to_sign reserved) in
    (v.drafts ≡ (office sent_to_sign reserved).drafts)
    ⊎ ((number : Text) × (v.drafts ≡ close_draft 41 number (office sent_to_sign reserved).drafts)
        × HasOficial job_calls (office sent_to_sign reserved) number v.oficial)
process_job-delivers_example =
    process_job-delivers job_calls (office sent_to_sign reserved) number_row-IsConsistent

process_job-completes_example :
    IsComplete job_calls (office sent_to_sign reserved) (codes "IF-2026-1") 71 (9 ∷ []) (
      process_job (smooth job_calls (codes "IF-2026-1") 71 (9 ∷ [])) (office sent_to_sign reserved))
process_job-completes_example =
    process_job-completes job_calls (office sent_to_sign reserved) 73 (codes "F-2026-1") 71 (9 ∷ [])
      refl (omega arith) (omega arith) refl

abbrev signed_office : Office
signed_office = process_job job_calls (office sent_to_sign reserved)

-- The whole run: the number is confirmed, the PDF is in place, the draft and the job are signed.
job_signs :
    (signed_office.oficial ≡ ((codes "IF-2026-1", 9 ∷ 1 ∷ []) ∷ []))
    × (signed_office.numbers.documents ≡ (number_row 41 confirmed ∷ []))
    × (signed_office.drafts ≡ close_draft 41 (codes "IF-2026-1") (draft_in sent_to_sign ∷ []))
unfolding process_job job_body check_reservation sign_document confirm_and_upload upload_oficial
    close_document on_rejected confirm_number finalize_number
job_signs = (refl, refl, refl)

abbrev rejected_office : Office
rejected_office = process_job job_calls (office rejected reserved)

abbrev failed_in_conflict : Session → Bool
failed_in_conflict r = row_in failed 1 r && has_reason (codes "confirmed_and_rejected_conflict") r

-- A document that was rejected meanwhile keeps its number and its PDF, and its job fails.
job_of_rejected :
    (rejected_office.oficial ≡ ((codes "IF-2026-1", 9 ∷ 1 ∷ []) ∷ []))
    × (rejected_office.numbers.documents ≡ (number_row 41 confirmed ∷ []))
    × (rejected_office.drafts ≡ (draft_in rejected ∷ []))
    × (any_of failed_in_conflict rejected_office.sessions ≡ true)
unfolding process_job job_body check_reservation sign_document confirm_and_upload upload_oficial
    close_document on_rejected confirm_number finalize_number
job_of_rejected = (refl, refl, refl, refl)
