-- ===== src/Signing/Job.antt =====
-- workers/escri.py, `_process_job`: the job of the signer that numbers the document, from the reserved
-- number to the signed document.
use gdi_backend.Prelude.{
  ℕ, Bool, true, false, ◌&&◌, ◌||◌, Option, none, some, List, ◌∷◌, ◌==◌, eq_some, if◌then◌else◌,
  any_of, find_if, update_if,
}
use gdi_backend.Prelude.Texts.{Text, codes}
use gdi_backend.Numbering.Tables.{confirming, confirmed, OfficialDocument, Db, Result, ok, raised}
use gdi_backend.Numbering.Queries.{is_reserved, is_confirming, truthy_text}
use gdi_backend.Numbering.Lifecycle.{confirm_number, finalize_number}
use gdi_backend.Signing.Tables.{Payload, Session, Draft, Signer, is_sent_to_sign}
use gdi_backend.Signing.Claims.{upload_fence}
use gdi_backend.Signing.Closing.{
  mark_session_signed, mark_session_failed, requeue_guard_unverifiable, mark_publish_failed,
}
use gdi_backend.Signing.Confirming.{close_draft}
use gdi_backend.Signing.Orphans.{is_confirmed}
use gdi_backend.Signing.Lock.{Pdf}
use gdi_backend.Signing.Failures.{Failure}
use gdi_backend.Signing.Common.{sign_row, runtime_error}

-- The exceptions by the handler that takes them: DocumentRejectedWhileInQueueError, CancelledError,
-- NotaryBreakerOpenError with its delay, and any other.
pub data Problem : Type 0 where
  rejected_in_queue cancelled_error : Problem
  breaker_open : ℕ → Problem
  failed_as : Failure → Problem

pub data Signature : Type 0 where
  signature : Pdf → Signature
  no_signature : Problem → Signature

-- The job as it was claimed, and what each call gives: `none` where it gets through, else the
-- exception. `prepares` stands for the breaker, the download and the data of the signer, which change
-- nothing; `limit` is ESCRI_GUARD_MAX_ATTEMPTS; `publishes` is false when every try of the publication
-- is answered no, and the job is marked for it.
pub record JobCalls : Type 0 where
  pub worker : ℕ
  pub now : ℕ
  pub limit : ℕ
  pub session : ℕ
  pub document : ℕ
  pub user : ℕ
  pub reservation : Option ℕ
  pub payload : Payload
  pub connects : Option Problem
  pub reads_number : Option Problem
  pub reads_reservation : Bool
  pub prepares : Option Problem
  pub lost : Bool
  pub notary : Signature
  pub confirms : Option Problem
  pub reads_stale : Bool
  pub fences : Option Problem
  pub uploads : Option Problem
  pub locates : Option Problem
  pub finalizes : Option Problem
  pub publishes : Bool
  pub marks_document : Option Problem
  pub closes : Option Problem
  pub reads_status : Bool
  pub cancels : Bool
  pub closes_late : Bool

-- The tables, and the PDFs in the bucket of official documents by their numbers.
pub record Office : Type 0 where
  pub sessions : List Session
  pub numbers : Db
  pub drafts : List Draft
  pub signers : List Signer
  pub oficial : List (Text × Pdf)

-- How the body ends; an exception carries `is_confirming_resume` and `official_number`, which its
-- handlers read.
pub data Ending : Type 0 where
  finished : Office → Ending
  stopped : Problem → Bool → Option Text → Office → Ending

module _ (c : JobCalls) where
  abbrev pub try_call : Option Problem → Bool → Option Text → Office → Ending → Ending
  try_call none resume number w next = next
  try_call (some p) resume number w next = stopped p resume number w

  abbrev pub on_sessions : (List Session → List Session) → Office → Office
  on_sessions f w = record w { sessions = f w.sessions }

  abbrev pub official_row : Office → Option OfficialDocument
  official_row w = find_if (λ d. d.id == c.document) w.numbers.documents

  abbrev pub is_draft : Draft → Bool
  is_draft d = d.id == c.document && is_sent_to_sign d.status

  abbrev pub is_own_signer : Signer → Bool
  is_own_signer r = r.document_id == c.document && r.user_id == c.user

  -- `_mark_document_signed`, one transaction, then `_mark_session_signed`. The time and the names of
  -- the signature in official_documents are not kept.
  unfoldable pub close_document : Bool → Text → Office → Ending
  close_document resume number w =
      let w' = record w {
        drafts = close_draft c.document number w.drafts;
        signers = update_if is_own_signer (sign_row c.now) w.signers;
      } in
      let w'' =
        on_sessions (λ rows. (mark_session_signed c.worker c.now c.session (some number) rows).1)
          w' in
      try_call c.marks_document resume (some number) w (
        if any_of is_draft w.drafts
        then try_call c.closes resume (some number) w' (finished w'')
        else stopped rejected_in_queue resume (some number) w)

  abbrev pub guard : Text → Office → Office
  guard origin w =
      on_sessions (requeue_guard_unverifiable c.limit c.now c.session c.payload origin 30) w

  abbrev pub finalized : Office → Office
  finalized w = elim c.reservation [
    | none ↦ w
    | some ticket ↦ record w { numbers = (finalize_number c.document ticket w.numbers).1 }
  ]

  abbrev pub published : Text → Office → Office
  published number w =
      if c.publishes
      then w
      else on_sessions
          (mark_publish_failed c.now c.session (record c.payload { official_number = some number }))
          w

  -- From the fence to the end.
  unfoldable pub upload_oficial : Bool → Text → Pdf → Office → Ending
  upload_oficial resume number pdf w =
      let (held, rows) = upload_fence c.worker c.now c.session w.sessions in
      let w₁ = record w { sessions = rows } in
      let w₂ = record w₁ { oficial = (number, pdf) ∷ w₁.oficial } in
      let w₃ = finalized w₂ in
      let rest = try_call c.uploads resume (some number) w₁ (
        try_call c.locates resume (some number) w₂ (
          try_call c.finalizes resume (some number) w₂
            (close_document resume number (published number w₃)))) in
      try_call c.fences resume (some number) w (if held then rest else finished w)

  -- `_od_stale["reservation_id"] == reservation_id`
  abbrev pub same_ticket : Option ℕ → Option ℕ → Bool
  same_ticket none none = true
  same_ticket (some a) b = eq_some b a
  same_ticket none (some b) = false

  abbrev pub superseded : Office → Office
  superseded w = on_sessions (mark_session_failed c.now c.session (codes "superseded")) w

  -- StaleReservationError: what the row says decides.
  abbrev pub stale_row : Text → Pdf → Office → Option OfficialDocument → Ending
  stale_row number pdf w none = finished (superseded w)
  stale_row number pdf w (some d) =
      if same_ticket d.reservation_id c.reservation
      then elim d.status [
        | confirmed ↦ close_document false number w
        | confirming ↦ upload_oficial true number pdf w
        | _ ↦ finished (superseded w)
      ]
      else finished (superseded w)

  abbrev pub stale : Text → Pdf → Office → Ending
  stale number pdf w =
      if c.reads_stale
      then stale_row number pdf w (official_row w)
      else finished (guard (codes "stale_check") w)

  abbrev pub confirmed_or : Text → Pdf → Office → Result (Unit {0} × Db) → Ending
  confirmed_or number pdf w (ok (_, db)) =
      upload_oficial false number pdf (record w { numbers = db })
  confirmed_or number pdf w (raised e) = stale number pdf w

  -- `confirm_number`; without a ticket no row matches.
  abbrev pub confirm_on : Text → Pdf → Office → Option ℕ → Ending
  confirm_on number pdf w none = stale number pdf w
  confirm_on number pdf w (some ticket) =
      confirmed_or number pdf w (confirm_number c.document ticket w.numbers)

  unfoldable pub confirm_and_upload : Text → Pdf → Office → Ending
  confirm_and_upload number pdf w =
      if c.payload.is_confirming
      then upload_oficial true number pdf w
      else try_call c.confirms false (some number) w (confirm_on number pdf w c.reservation)

  abbrev pub with_signature : Text → Office → Signature → Ending
  with_signature number w (signature pdf) = confirm_and_upload number pdf w
  with_signature number w (no_signature p) = stopped p c.payload.is_confirming (some number) w

  unfoldable pub sign_document : Text → Office → Ending
  sign_document number w =
      try_call c.prepares c.payload.is_confirming (some number) w
        (if c.lost then finished w else with_signature number w c.notary)

  abbrev pub is_confirmed_row : Option OfficialDocument → Bool
  is_confirmed_row none = false
  is_confirmed_row (some d) = is_confirmed d.status

  -- The read before the signature: what cannot be verified is not signed again.
  unfoldable pub check_reservation : Text → Office → Ending
  check_reservation number w =
      if c.reads_reservation
      then (if is_confirmed_row (official_row w)
          then close_document c.payload.is_confirming number w
          else sign_document number w)
      else finished (guard (codes "reservation_check") w)

  abbrev pub with_number : Text → Office → Ending
  with_number number w =
      if c.payload.confirmed_autoheal
      then close_document c.payload.is_confirming number w
      else check_reservation number w

  abbrev pub is_open_number : OfficialDocument → Bool
  is_open_number d = d.id == c.document && (is_reserved d.status || is_confirming d.status)

  abbrev pub number_of_row : Option OfficialDocument → Option Text
  number_of_row none = none
  number_of_row (some d) = truthy_text (some d.official_number)

  abbrev pub found_number : Office → Option Text → Ending
  found_number w none =
      stopped (failed_as (runtime_error (codes "official_number no encontrado")))
        c.payload.is_confirming none w
  found_number w (some number) = with_number number w

  -- The number of the payload, or `_get_official_number`.
  abbrev pub known_number : Office → Option Text → Ending
  known_number w (some number) = with_number number w
  known_number w none =
      try_call c.reads_number c.payload.is_confirming none w
        (found_number w (number_of_row (find_if is_open_number w.numbers.documents)))

  -- The body of the `try`.
  unfoldable pub job_body : Office → Ending
  job_body w =
      let number = truthy_text c.payload.official_number in
      try_call c.connects c.payload.is_confirming number w (known_number w number)
