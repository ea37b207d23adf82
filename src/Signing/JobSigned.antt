-- ===== src/Signing/JobSigned.antt =====
-- workers/escri.py, `_process_job`: what holds of a document that the job marks as signed.
use gdi_backend.Prelude.{
  ℕ, ◌≡◌, refl, ap, ◌∙◌, Bool, true, false, Bool-cases, Option, none, some, ◌∷◌, inl, inr, Memᴰ,
  find_if, ◌⊎◌, any_of,
}
use gdi_backend.Prelude.Texts.{Text}
use gdi_backend.Numbering.Tables.{
  reserved, confirming, confirmed, cancelled, ReservationStatus, OfficialDocument, Db, Result, ok,
  raised,
}
use gdi_backend.Numbering.Lifecycle.{confirm_number}
use gdi_backend.Signing.Claims.{upload_fence}
use gdi_backend.Signing.Confirming.{close_draft}
use gdi_backend.Signing.Lock.{Pdf}
use gdi_backend.Signing.Job.{
  rejected_in_queue, Signature, signature, no_signature, JobCalls, Office, Ending, finished,
  stopped, official_row, is_confirmed_row, is_draft, job_body, finalized, published, upload_oficial,
  same_ticket, stale_row, stale, confirmed_or, confirm_on, confirm_and_upload, with_signature,
  sign_document, superseded, close_document, known_number, with_number, check_reservation,
  found_number, number_of_row, is_open_number,
}
use gdi_backend.Numbering.Queries.{truthy_text}
use gdi_backend.Signing.JobEnd.{process_job}
use gdi_backend.Signing.JobKeeps.{EndsIn, try_call-EndsIn, if-EndsIn, job_handled-keeps}
use gdi_backend.Signing.JobConsistent.{
  IsConsistent, HasOficial, InPlace, payload-InPlace, found-InPlace,
}

-- The drafts are as they were, or the draft is signed under a number whose PDF is in place.
abbrev pub Delivers : JobCalls → Office → Office → Type 0
Delivers c w v =
    (v.drafts ≡ w.drafts)
    ⊎ ((number : Text) × (v.drafts ≡ close_draft c.document number w.drafts)
        × HasOficial c w number v.oficial)

module _ (c : JobCalls) (w : Office) where
  abbrev Ends : Ending → Type 0
  Ends e = EndsIn (Delivers c w) e

  close_document-Ends :
      (resume : Bool) (number : Text) (v : Office)
      → v.drafts ≡ w.drafts
      → HasOficial c w number v.oficial
      → Ends (close_document c resume number v)
  unfolding close_document
  close_document-Ends resume number v same has =
      let marked : (close_draft c.document number v.drafts
          ≡ close_draft c.document number w.drafts) =
        ap (λ ds. close_draft c.document number ds) same in
      try_call-EndsIn (Delivers c w) c c.marks_document resume (some number) v _ (inl same) (
        if-EndsIn (Delivers c w) (any_of (is_draft c) v.drafts) _
          (stopped rejected_in_queue resume (some number) v)
          (λ _.
            try_call-EndsIn (Delivers c w) c c.closes resume (some number) _ _
              (inr (number, marked, has)) (inr (number, marked, has)))
          (inl same))

  published-same :
      (number : Text) (v : Office)
      → ((published c number v).drafts ≡ v.drafts) × ((published c number v).oficial ≡ v.oficial)
  published-same number v = elim (Bool-cases c.publishes) [
    | inl e ↦ rw e (refl, refl)
    | inr e ↦ rw e (refl, refl)
  ]

  finalized-same :
      (v : Office) → ((finalized c v).drafts ≡ v.drafts) × ((finalized c v).oficial ≡ v.oficial)
  finalized-same v = go c.reservation refl
    where
      go :
          (o : Option ℕ)
          → c.reservation ≡ o
          → ((finalized c v).drafts ≡ v.drafts) × ((finalized c v).oficial ≡ v.oficial)
      go none e = rw e (refl, refl)
      go (some ticket) e = rw e (refl, refl)

  upload_oficial-Ends :
      (resume : Bool) (number : Text) (pdf : Pdf) (v : Office)
      → v.drafts ≡ w.drafts
      → v.oficial ≡ w.oficial
      → c.notary ≡ signature pdf
      → Ends (upload_oficial c resume number pdf v)
  unfolding upload_oficial
  upload_oficial-Ends resume number pdf v same files made =
      let (held, rows) = upload_fence c.worker c.now c.session v.sessions in
      let v₁ = record v { sessions = rows } in
      let v₂ = record v₁ { oficial = (number, pdf) ∷ v₁.oficial } in
      let v₃ = finalized c v₂ in
      let there : (published c number v₃).oficial ≡ ((number, pdf) ∷ w.oficial) =
        (published-same number v₃).1
        ∙ ((finalized-same v₂).1 ∙ ap (λ x. (number, pdf) ∷ x) files) in
      let kept : (published c number v₃).drafts ≡ w.drafts =
        (published-same number v₃).0 ∙ ((finalized-same v₂).0 ∙ same) in
      try_call-EndsIn (Delivers c w) c c.fences resume (some number) v _ (inl same) (
        if-EndsIn (Delivers c w) held _ (finished v)
          (λ _. try_call-EndsIn (Delivers c w) c c.uploads resume (some number) v₁ _ (inl same) (
            try_call-EndsIn (Delivers c w) c c.locates resume (some number) v₂ _ (inl same) (
              try_call-EndsIn (Delivers c w) c c.finalizes resume (some number) v₂ _ (inl same) (
                close_document-Ends resume number (published c number v₃) kept
                  ((pdf, rw there (Memᴰ.head refl)), inr (pdf, made, there))))))
          (inl same))

  -- The row that a stale confirmation reads is the one of before: a confirmed one has its PDF.
  stale_row-Ends :
      (number : Text) (pdf : Pdf) (o : Option OfficialDocument)
      → InPlace c w number
      → c.notary ≡ signature pdf
      → official_row c w ≡ o
      → Ends (stale_row c number pdf w o)
  stale_row-Ends number pdf none was made read = inl refl
  stale_row-Ends number pdf (some d) was made read =
      if-EndsIn (Delivers c w) (same_ticket c d.reservation_id c.reservation) _ _
        (λ _. go d.status refl) (inl refl)
    where
      go :
          (s : ReservationStatus)
          → d.status ≡ s
          → Ends (elim s [
            | confirmed ↦ close_document c false number w
            | confirming ↦ upload_oficial c true number pdf w
            | _ ↦ finished (superseded c w)
          ])
      go confirmed e = close_document-Ends false number w refl (was (rw (read, e) refl))
      go confirming e = upload_oficial-Ends true number pdf w refl refl made
      go reserved e = inl refl
      go cancelled e = inl refl

  stale-Ends :
      (number : Text) (pdf : Pdf)
      → InPlace c w number
      → c.notary ≡ signature pdf
      → Ends (stale c number pdf w)
  stale-Ends number pdf was made =
      if-EndsIn (Delivers c w) c.reads_stale _ _
        (λ _. stale_row-Ends number pdf (official_row c w) was made refl) (inl refl)

  confirmed_or-Ends :
      (number : Text) (pdf : Pdf) (r : Result (Unit {0} × Db))
      → InPlace c w number
      → c.notary ≡ signature pdf
      → Ends (confirmed_or c number pdf w r)
  confirmed_or-Ends number pdf (ok (_, db)) was made =
      upload_oficial-Ends false number pdf (record w { numbers = db }) refl refl made
  confirmed_or-Ends number pdf (raised e) was made = stale-Ends number pdf was made

  confirm_on-Ends :
      (number : Text) (pdf : Pdf) (o : Option ℕ)
      → InPlace c w number
      → c.notary ≡ signature pdf
      → Ends (confirm_on c number pdf w o)
  confirm_on-Ends number pdf none was made = stale-Ends number pdf was made
  confirm_on-Ends number pdf (some ticket) was made =
      confirmed_or-Ends number pdf (confirm_number c.document ticket w.numbers) was made

  with_signature-Ends :
      (number : Text) (n : Signature)
      → InPlace c w number
      → c.notary ≡ n
      → Ends (with_signature c number w n)
  unfolding confirm_and_upload
  with_signature-Ends number (no_signature p) was e = inl refl
  with_signature-Ends number (signature pdf) was made =
      if-EndsIn (Delivers c w) c.payload.is_confirming _ _
        (λ _. upload_oficial-Ends true number pdf w refl refl made)
        (try_call-EndsIn (Delivers c w) c c.confirms false (some number) w _ (inl refl)
          (confirm_on-Ends number pdf c.reservation was made))

  check_reservation-Ends :
      (number : Text) → InPlace c w number → Ends (check_reservation c number w)
  unfolding check_reservation sign_document
  check_reservation-Ends number was =
      if-EndsIn (Delivers c w) c.reads_reservation _ _
        (λ _.
          if-EndsIn (Delivers c w) (is_confirmed_row c (official_row c w)) _ _
            (λ e. close_document-Ends c.payload.is_confirming number w refl (was e))
            (try_call-EndsIn (Delivers c w) c c.prepares c.payload.is_confirming (some number) w _
              (inl refl)
              (if-EndsIn (Delivers c w) c.lost _ _ (λ _. inl refl)
                (with_signature-Ends number c.notary was refl))))
        (inl refl)

  with_number-Ends :
      IsConsistent c w → (number : Text) → InPlace c w number → Ends (with_number c number w)
  with_number-Ends fits number was =
      if-EndsIn (Delivers c w) c.payload.confirmed_autoheal _ _
        (λ e.
          close_document-Ends c.payload.is_confirming number w refl
            (was (fits.repairs_confirmed e)))
        (check_reservation-Ends number was)

  found_number-Ends :
      IsConsistent c w
      → (o : Option Text) → number_of_row c (find_if (is_open_number c) w.numbers.documents) ≡ o
      → Ends (found_number c w o)
  found_number-Ends fits none found = inl refl
  found_number-Ends fits (some number) found =
      with_number-Ends fits number (found-InPlace c w fits number found)

  known_number-Ends :
      IsConsistent c w
      → (o : Option Text) → truthy_text c.payload.official_number ≡ o
      → Ends (known_number c w o)
  known_number-Ends fits (some number) known =
      with_number-Ends fits number (payload-InPlace c w fits number known)
  known_number-Ends fits none known =
      try_call-EndsIn (Delivers c w) c c.reads_number c.payload.is_confirming none w _ (inl refl)
        (found_number-Ends fits _ refl)

  job_body-Ends : IsConsistent c w → Ends (job_body c w)
  unfolding job_body
  job_body-Ends fits =
      try_call-EndsIn (Delivers c w) c c.connects c.payload.is_confirming _ w _ (inl refl)
        (known_number-Ends fits _ refl)

-- A document is marked as signed only with its official PDF in place: a job on a document that is
-- consistent before it, whatever its calls give, leaves the drafts as they were, or it signs the
-- draft of its document under a number, and then a PDF is in the official bucket under that number,
-- and either the row of the document was confirmed with that number before, or that PDF is what the
-- notary has signed in the job.
pub process_job-delivers :
    (c : JobCalls) (w : Office)
    → IsConsistent c w
    → let v = process_job c w in
      (v.drafts ≡ w.drafts)
      ⊎ ((number : Text) × (v.drafts ≡ close_draft c.document number w.drafts)
          × HasOficial c w number v.oficial)
unfolding process_job
process_job-delivers c w fits =
    job_handled-keeps c (Delivers c w) (λ f v h. h) (λ reason ticket v h. h) (job_body c w)
      (job_body-Ends c w fits)
