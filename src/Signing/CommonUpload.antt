-- ===== src/Signing/CommonUpload.antt =====
-- workers/escri.py, `_process_common_job`: when the upload of a signed PDF and what follows it leave a
-- signed PDF in place.
use gdi_backend.Prelude.{
  ℕ, zero, suc, ◌≡◌, refl, ap, ◌∙◌, true, false, Option, none, some, ◌==◌, Bool-cases, inl, inr,
  ◌⊎◌, count_if, update_if,
}
use gdi_backend.Signing.Closing.{mark_uploaded}
use gdi_backend.Signing.Lock.{
  Pdf, tosign_key, inprocess_key, Bucket, get_object, delete_attempts, clean_inprocess,
  release_redis_lock, uploaded, release_signing_lock_success,
}
use gdi_backend.Signing.LockLaws.{get_object-put_self, get_object-delete_other, release-bucket}
use gdi_backend.Signing.Failures.{Failure}
use gdi_backend.Signing.Common.{
  signed_as, Calls, Work, Flow, returns, raising, call, with_sessions, is_signer, sign_row, closed,
  cleaned, sign_and_close, after_upload, resume, release_of, upload_on, payload_of,
}

-- The PDF to sign in a bucket is a signed one: the job's marker says so, or it is what the notary made
-- of the PDF in process, or it is not the PDF that was taken to be signed.
abbrev pub HasSignedPdf : Calls → Work → Bucket → Type 0
HasSignedPdf c w b =
    ((payload_of c w).signed_uploaded ≡ true)
    ⊎ ((pdf : Pdf) × (get_object (tosign_key c.document) b ≡ some pdf)
        × (((raw : Pdf) × (get_object (inprocess_key c.document) w.desk.bucket ≡ some raw)
              × (c.notary raw ≡ signed_as pdf))
            ⊎ ((saved : ℕ) × ((payload_of c w).unsigned_sha256 ≡ some saved)
                × ((c.sha256 pdf == saved) ≡ false))))

HasSignedPdf-same :
    (c : Calls) (w : Work) (a b : Bucket)
    → get_object (tosign_key c.document) b ≡ get_object (tosign_key c.document) a
    → HasSignedPdf c w a
    → HasSignedPdf c w b
HasSignedPdf-same c w a b e (inl marked) = inl marked
HasSignedPdf-same c w a b e (inr (pdf, there, why)) = inr (pdf, e ∙ there, why)

module _ (c : Calls) (w : Work) where
  -- How the body may end: an exception before the upload leaves the signers as they were.
  abbrev pub IsFine : Flow → Type 0
  IsFine (returns v) = (v.signers ≡ w.signers) ⊎ HasSignedPdf c w v.desk.bucket
  IsFine (raising f true v) = (v.signers ≡ w.signers) ⊎ HasSignedPdf c w v.desk.bucket
  IsFine (raising f false v) = v.signers ≡ w.signers

  pub call-IsFine :
      (o : Option Failure) (v : Work) (next : Flow)
      → v.signers ≡ w.signers
      → IsFine next
      → IsFine (call o false v next)
  call-IsFine none v next same fine = fine
  call-IsFine (some f) v next same fine = same

  pub call_late-IsFine :
      (o : Option Failure) (v : Work) (next : Flow)
      → HasSignedPdf c w v.desk.bucket
      → IsFine next
      → IsFine (call o true v next)
  call_late-IsFine none v next has fine = fine
  call_late-IsFine (some f) v next has fine = inr has

  after_upload-IsFine :
      (v : Work) (finish : Work → Work)
      → ((u : Work)
          → get_object (tosign_key c.document) (finish u).desk.bucket
            ≡ get_object (tosign_key c.document) u.desk.bucket)
      → HasSignedPdf c w v.desk.bucket
      → IsFine (after_upload c v finish)
  unfolding after_upload sign_and_close
  after_upload-IsFine v finish keeps has =
      let v' = with_sessions (mark_uploaded c.now c.session) v in
      let v'' = record v' { signers = update_if (is_signer c) (sign_row c.now) v'.signers } in
      let last : IsFine (returns (finish (closed c v''))) = inr (
        HasSignedPdf-same c w v.desk.bucket (finish (closed c v'')).desk.bucket
          (keeps (closed c v'')) has) in
      call_late-IsFine c.marks v _ has (
        call_late-IsFine c.updates_signer v' _ has
          (elim (Bool-cases (count_if (is_signer c) v.signers == 0)) [
            | inl e ↦ rw e (inr has)
            | inr e ↦ rw e (
                call_late-IsFine c.closes v'' _ has
                  (call_late-IsFine c.audits (closed c v'') _ has last))
          ]))

  cleaned-tosign :
      (u : Work)
      → get_object (tosign_key c.document) (cleaned c u).desk.bucket
        ≡ get_object (tosign_key c.document) u.desk.bucket
  cleaned-tosign u = elim (Bool-cases c.cleans) [
    | inl e ↦ rw e (
        get_object-delete_other (inprocess_key c.document) (tosign_key c.document) u.desk.bucket
          refl)
    | inr e ↦ rw e refl
  ]

  pub resume-IsFine : HasSignedPdf c w w.desk.bucket → IsFine (resume c w)
  resume-IsFine has = after_upload-IsFine w (cleaned c) cleaned-tosign has

  attempts-tosign :
      (left attempt : ℕ) (b : Bucket)
      → get_object
          (tosign_key c.document)
          (delete_attempts c.deletes attempt left (inprocess_key c.document) b).1
        ≡ get_object (tosign_key c.document) b
  unfolding delete_attempts
  attempts-tosign zero attempt b = refl
  attempts-tosign (suc left) attempt b = elim (Bool-cases (c.deletes attempt)) [
    | inl e ↦
        rw e (get_object-delete_other (inprocess_key c.document) (tosign_key c.document) b refl)
    | inr e ↦ rw e (attempts-tosign left (suc attempt) b)
  ]

  pub upload_on-IsFine :
      (v : Work) (pdf : Pdf) (o : Option Failure) {raw : Pdf}
      → v.signers ≡ w.signers
      → get_object (inprocess_key c.document) w.desk.bucket ≡ some raw
      → c.notary raw ≡ signed_as pdf
      → IsFine (upload_on c v pdf o)
  unfolding release_signing_lock_success
  upload_on-IsFine v pdf (some f) same taken made = same
  upload_on-IsFine v pdf none {raw} same taken made =
      let q = release_of c pdf none in
      let freed = release_redis_lock c.redis c.document (uploaded q c.now c.document v.desk) in
      let there : get_object (tosign_key c.document)
            (clean_inprocess q.deletes c.document freed).bucket
          ≡ some pdf =
        attempts-tosign 3 0 freed.bucket
        ∙ (ap (λ b. get_object (tosign_key c.document) b)
              (release-bucket c.redis c.document (uploaded q c.now c.document v.desk))
            ∙ get_object-put_self (tosign_key c.document) pdf v.desk.bucket) in
      after_upload-IsFine (record v { desk = clean_inprocess q.deletes c.document freed }) (λ u. u)
        (λ u. refl) (inr (pdf, there, inl (raw, taken, made)))
