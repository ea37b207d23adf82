-- ===== src/Signing/JobCompletes.antt =====
-- workers/escri.py, `_process_job`: a job whose calls all get through.
use gdi_backend.Prelude.{
  ℕ, ◌<◌, ◌≡◌, refl, sym, subst, ap, true, false, Bool-cases, Option, none, some, List, ◌∷◌, arith,
  ltb, ◌==◌, inl, inr, any_of, count_if, count_if-updated,
}
use gdi_backend.Prelude.Texts.{Text}
use gdi_backend.Numbering.Tables.{confirmed, Db}
use gdi_backend.Numbering.Queries.{is_confirming}
use gdi_backend.Numbering.Lifecycle.{ticket_row, with_status, finalize_number}
use gdi_backend.Numbering.Counting.{count-update}
use gdi_backend.Numbering.Tickets.{
  waiting, after_confirm, after_confirm-documents, confirm_ok, confirming_now,
}
use gdi_backend.Signing.Tables.{signed, Payload, Session, row_in, claimed_row}
use gdi_backend.Signing.Claims.{with_id, touched, upload_fence}
use gdi_backend.Signing.Closing.{
  mark_session_signed, signed_row, unpublished_row, mark_publish_failed,
}
use gdi_backend.Signing.Confirming.{close_draft}
use gdi_backend.Signing.Orphans.{is_confirmed}
use gdi_backend.Signing.Lock.{Pdf}
use gdi_backend.Signing.Job.{
  signature, JobCalls, Office, Ending, finished, stopped, official_row, is_confirmed_row, is_draft,
  job_body, upload_oficial, confirm_and_upload, sign_document, close_document, check_reservation,
}
use gdi_backend.Signing.JobEnd.{job_handled, process_job}

-- The calls of a job on a reservation whose number is known, when they all get through; publishing
-- may fail.
abbrev pub smooth : JobCalls → Text → ℕ → Pdf → JobCalls
smooth c number ticket pdf = record c {
  reservation = some ticket;
  payload = record c.payload {
    official_number = some number;
    is_confirming = false;
    confirmed_autoheal = false;
  };
  connects = none;
  reads_reservation = true;
  prepares = none;
  lost = false;
  notary = signature pdf;
  confirms = none;
  fences = none;
  uploads = none;
  locates = none;
  finalizes = none;
  marks_document = none;
  closes = none;
}

-- The document is signed under the number, which is confirmed, and so is the job.
abbrev pub IsComplete : JobCalls → Office → Text → ℕ → Pdf → Office → Type 0
IsComplete c w number ticket pdf v =
    (v.oficial ≡ ((number, pdf) ∷ w.oficial))
    × (v.drafts ≡ close_draft c.document number w.drafts)
    × (0 < count_if (ticket_row is_confirmed c.document ticket) v.numbers.documents)
    × (0 < count_if (row_in signed c.session) v.sessions)

finalize_confirmed :
    (id ticket : ℕ) (db : Db)
    → 0 < count_if (ticket_row is_confirming id ticket) db.documents
    → 0 < count_if (ticket_row is_confirmed id ticket) (finalize_number id ticket db).1.documents
unfolding finalize_number
finalize_confirmed id ticket db h =
    let pass = ticket_row is_confirming id ticket in
    elim (Bool-cases (count_if pass db.documents == 0)) [
      | inl stale ↦ absurd (ground arith)
      | inr held ↦
          let moved =
            count_if-updated pass (ticket_row is_confirmed id ticket) (with_status confirmed)
              db.documents (λ d k. ground (arith, k)) in
          rw held (omega (arith, moved, h))
    ]

mark_session-signed :
    (worker now id : ℕ) (number : Option Text) (rows : List Session)
    → 0 < count_if (claimed_row worker id) rows
    → 0 < count_if (row_in signed id) (mark_session_signed worker now id number rows).1
unfolding mark_session_signed
mark_session-signed worker now id number rows h =
    elim (Bool-cases (count_if (claimed_row worker id) rows == 0)) [
      | inl gone ↦ absurd (ground arith)
      | inr held ↦
          let moved =
            count_if-updated (claimed_row worker id) (row_in signed id) (signed_row number now) rows
              (λ r k. ground (arith, k)) in
          rw held (omega (arith, moved, h))
    ]

-- The rows that a worker holds stay its own while it uploads and publishes.
fence-claimed :
    (worker now id : ℕ) (rows : List Session)
    → count_if (claimed_row worker id) (upload_fence worker now id rows).1
      ≡ count_if (claimed_row worker id) rows
fence-claimed worker now id rows =
    count-update (claimed_row worker id) (claimed_row worker id) (touched now) rows (λ r. refl)

marked-claimed :
    (worker now id : ℕ) (payload : Payload) (rows : List Session)
    → count_if (claimed_row worker id) (mark_publish_failed now id payload rows)
      ≡ count_if (claimed_row worker id) rows
marked-claimed worker now id payload rows =
    count-update (claimed_row worker id) (with_id id) (unpublished_row now payload) rows (λ r. refl)

module _ (c : JobCalls) (w : Office) (number : Text) (ticket : ℕ) (pdf : Pdf)
    (sent : any_of (is_draft c) w.drafts ≡ true) where
  abbrev Ends : Ending → Type 0
  Ends (finished v) = IsComplete c w number ticket pdf v
  Ends (stopped p resume n v) = ⊥

  close_document-Ends :
      (v : Office)
      → v.drafts ≡ w.drafts
      → v.oficial ≡ ((number, pdf) ∷ w.oficial)
      → 0 < count_if (ticket_row is_confirmed c.document ticket) v.numbers.documents
      → 0 < count_if (claimed_row c.worker c.session) v.sessions
      → Ends (close_document (smooth c number ticket pdf) false number v)
  unfolding close_document
  close_document-Ends v same files numbered held =
      let here : any_of (is_draft c) v.drafts ≡ true =
        subst (λ ds. any_of (is_draft c) ds ≡ true) (sym same) sent in
      rw here (
        files,
        ap (λ ds. close_draft c.document number ds) same,
        numbered,
        mark_session-signed c.worker c.now c.session (some number) v.sessions held,
      )

  upload_oficial-Ends :
      (db : Db)
      → 0 < count_if (ticket_row is_confirming c.document ticket) db.documents
      → 0 < count_if (claimed_row c.worker c.session) w.sessions
      → Ends
          (upload_oficial (smooth c number ticket pdf) false number pdf (record w { numbers = db }))
  unfolding upload_oficial close_document
  upload_oficial-Ends db confirming_row claimed =
      let rows = (upload_fence c.worker c.now c.session w.sessions).1 in
      let marked =
        mark_publish_failed c.now c.session
          (record (smooth c number ticket pdf).payload { official_number = some number }) rows in
      let done = record w {
        sessions = rows;
        numbers = (finalize_number c.document ticket db).1;
        oficial = (number, pdf) ∷ w.oficial;
      } in
      let through : ltb 0 (count_if (claimed_row c.worker c.session) w.sessions) ≡ true =
        ground (arith, claimed) in
      let numbered = finalize_confirmed c.document ticket db confirming_row in
      let held : 0 < count_if (claimed_row c.worker c.session) rows =
        rw (fence-claimed c.worker c.now c.session w.sessions) claimed in
      let held' : 0 < count_if (claimed_row c.worker c.session) marked =
        rw (marked-claimed c.worker c.now c.session _ rows) held in
      elim (Bool-cases c.publishes) [
        | inl e ↦ rw (through, e) (close_document-Ends done refl refl numbered held)
        | inr e ↦
            rw (through, e)
              (close_document-Ends (record done { sessions = marked }) refl refl numbered held')
      ]

  handled-IsComplete :
      (e : Ending)
      → Ends e
      → IsComplete c w number ticket pdf (job_handled (smooth c number ticket pdf) e)
  handled-IsComplete (finished v) h = h
  handled-IsComplete (stopped p resume n v) h = absurd h

-- A job on a reserved number that is known, whose worker holds the claim and whose document is sent to
-- sign, signs the document if its calls get through, whether or not the publication does: the PDF
-- of the notary is in the official bucket under the number, the draft is signed under it, the number
-- is confirmed and the job is signed.
pub process_job-completes :
    (c : JobCalls) (w : Office) (k : ℕ) (n : Text) (ticket : ℕ) (pdf : Pdf)
    → is_confirmed_row c (official_row c w) ≡ false
    → 0 < count_if (waiting c.document ticket) w.numbers.documents
    → 0 < count_if (claimed_row c.worker c.session) w.sessions
    → any_of (is_draft c) w.drafts ≡ true
    → IsComplete c w (k ∷ n) ticket pdf (process_job (smooth c (k ∷ n) ticket pdf) w)
unfolding process_job job_body check_reservation sign_document confirm_and_upload
process_job-completes c w k n ticket pdf open_number reserved_row claimed sent =
    let db = after_confirm c.document ticket w.numbers in
    let now_confirming : 0 < count_if (ticket_row is_confirming c.document ticket) db.documents =
      rw (after_confirm-documents c.document ticket w.numbers)
        (omega (arith, confirming_now c.document ticket w.numbers.documents, reserved_row)) in
    rw (open_number, confirm_ok c.document ticket w.numbers reserved_row)
      (handled-IsComplete c w (k ∷ n) ticket pdf sent
        (upload_oficial (smooth c (k ∷ n) ticket pdf) false (k ∷ n) pdf (record w { numbers = db }))
        (upload_oficial-Ends c w (k ∷ n) ticket pdf sent db now_confirming claimed))
