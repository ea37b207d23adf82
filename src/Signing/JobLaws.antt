-- ===== src/Signing/JobLaws.antt =====
-- workers/escri.py, `_process_job`: what a job does whose number is confirmed already.
use gdi_backend.Prelude.{◌≡◌, some, Memᴰ}
use gdi_backend.Numbering.Tables.{confirmed, OfficialDocument}
use gdi_backend.Signing.Job.{JobCalls, Office, official_row}

module _ (c : JobCalls) (w : Office) {d : OfficialDocument} (found : official_row c w ≡ some d)
    (done : d.status ≡ confirmed) where
  -- The row stays, and so do the official PDFs.
  abbrev Spares : Office → Type 0
  Spares v = Memᴰ d v.numbers.documents × (v.oficial ≡ w.oficial)
