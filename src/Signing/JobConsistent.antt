-- ===== src/Signing/JobConsistent.antt =====
-- workers/escri.py, `_process_job`: what holds of a document before its job, and that the number of
-- the job is then that of its row.
use gdi_backend.Prelude.{
  ◌≡◌, refl, ap, ◌∙◌, true, Option, none, some, List, [], ◌∷◌, inl, Memᴰ, find_if, ◌==◌,
  find_if-Mem, subst, arith, ◌⊎◌,
}
use gdi_backend.Prelude.Texts.{Text}
use gdi_backend.Numbering.Tables.{
  reserved, confirming, confirmed, cancelled, ReservationStatus, OfficialDocument,
}
use gdi_backend.Signing.Lock.{Pdf}
use gdi_backend.Signing.Job.{
  signature, JobCalls, Office, official_row, is_confirmed_row, number_of_row, is_open_number,
}
use gdi_backend.Numbering.Queries.{truthy_text}
use gdi_backend.Signing.Orphans.{is_confirmed}

-- What holds of the document of a job before it: its id is in one row, as the primary key says; the
-- payload carries the number of the row; the PDF of a confirmed row is in the official bucket, under
-- its number; and the job repairs a confirmation only of a confirmed row.
pub record IsConsistent (c : JobCalls) (w : Office) : Type 0 where
  pub one_row :
      (d e : OfficialDocument)
      → Memᴰ d w.numbers.documents
      → Memᴰ e w.numbers.documents
      → d.id ≡ c.document
      → e.id ≡ c.document
      → d ≡ e
  pub number_agrees :
      (d : OfficialDocument) (number : Text)
      → Memᴰ d w.numbers.documents
      → d.id ≡ c.document
      → truthy_text c.payload.official_number ≡ some number
      → d.official_number ≡ number
  pub confirmed_in_place :
      (d : OfficialDocument)
      → Memᴰ d w.numbers.documents
      → d.id ≡ c.document
      → d.status ≡ confirmed
      → (pdf : Pdf) × Memᴰ (d.official_number, pdf) w.oficial
  pub repairs_confirmed :
      c.payload.confirmed_autoheal ≡ true → is_confirmed_row c (official_row c w) ≡ true

-- The official PDF of a number is in place, and either the row of the document was confirmed with that
-- number before, or the PDF is what the notary has signed in this job.
abbrev pub HasOficial : JobCalls → Office → Text → List (Text × Pdf) → Type 0
HasOficial c w number files =
    ((pdf : Pdf) × Memᴰ (number, pdf) files)
    × (((d : OfficialDocument) × (official_row c w ≡ some d)
          × (d.status ≡ confirmed)
          × (d.official_number ≡ number))
        ⊎ ((pdf : Pdf) × (c.notary ≡ signature pdf) × (files ≡ ((number, pdf) ∷ w.oficial))))

is_confirmed_lem : (s : ReservationStatus) → is_confirmed s ≡ true → s ≡ confirmed
is_confirmed_lem reserved h = cc
is_confirmed_lem confirming h = cc
is_confirmed_lem confirmed h = refl
is_confirmed_lem cancelled h = cc

truthy_text-some : (t : Text) (number : Text) → truthy_text (some t) ≡ some number → t ≡ number
truthy_text-some [] number h = cc
truthy_text-some (x ∷ xs) number h = cc

module _ (c : JobCalls) (w : Office) where
  -- The number is that of the row, if this is confirmed, and then its PDF is in place.
  abbrev pub InPlace : Text → Type 0
  InPlace number = is_confirmed_row c (official_row c w) ≡ true → HasOficial c w number w.oficial

  row-InPlace :
      IsConsistent c w
      → (number : Text)
      → ((d : OfficialDocument)
          → Memᴰ d w.numbers.documents
          → d.id ≡ c.document
          → d.official_number ≡ number)
      → InPlace number
  row-InPlace fits number agrees = go (official_row c w) refl
    where
      go :
          (o : Option OfficialDocument)
          → official_row c w ≡ o
          → is_confirmed_row c o ≡ true
          → HasOficial c w number w.oficial
      go none read done = cc
      go (some d) read done =
          let (m, mine) = find_if-Mem (λ e. e.id == c.document) w.numbers.documents read in
          let own : d.id ≡ c.document = ground arith in
          let same : d.official_number ≡ number = agrees d m own in
          let closed : d.status ≡ confirmed = is_confirmed_lem d.status done in
          let (pdf, there) = fits.confirmed_in_place d m own closed in
          ((pdf, subst (λ t. Memᴰ (t, pdf) w.oficial) same there), inl (d, read, closed, same))

  pub payload-InPlace :
      IsConsistent c w
      → (number : Text) → truthy_text c.payload.official_number ≡ some number
      → InPlace number
  payload-InPlace fits number known =
      row-InPlace fits number (λ d m mine. fits.number_agrees d number m mine known)

  pub found-InPlace :
      IsConsistent c w
      → (number : Text)
      → number_of_row c (find_if (is_open_number c) w.numbers.documents) ≡ some number
      → InPlace number
  found-InPlace fits number found = go (find_if (is_open_number c) w.numbers.documents) refl found
    where
      go :
          (o : Option OfficialDocument)
          → find_if (is_open_number c) w.numbers.documents ≡ o
          → number_of_row c o ≡ some number
          → InPlace number
      go none read k = cc
      go (some e) read k =
          let (m, waits) = find_if-Mem (is_open_number c) w.numbers.documents read in
          let own : e.id ≡ c.document = ground arith in
          row-InPlace fits number (λ d m' mine.
            ap (λ x. x.official_number) (fits.one_row d e m' m mine own)
            ∙ truthy_text-some e.official_number number k)
