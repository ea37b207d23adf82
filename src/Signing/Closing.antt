-- ===== src/Signing/Closing.antt =====
-- workers/escri.py: how a job of public.signing_sessions is closed as signed or failed, or put back
-- in the queue.
use gdi_backend.Prelude.{
  ℕ, zero, suc, ◌+◌, ◌*◌, Bool, true, ◌&&◌, ◌||◌, Option, none, some, List, [], ◌∷◌, ◌++◌, ltb, leb,
  ◌==◌, if◌then◌else◌, count_if, find_if, update_if,
}
use gdi_backend.Prelude.Texts.{Text, codes}
use gdi_backend.Numbering.Format.{decimal}
use gdi_backend.Signing.Tables.{
  pending, processing, signed, failed, dts, Payload, Session, seconds, minutes, same_status,
  same_job, row_in, claimed_row, unclaimed,
}
use gdi_backend.Signing.Claims.{with_id}

-- PENDING_TTL_MINUTES and POST_UPLOAD_MAX_RETRIES
abbrev pub pending_ttl_minutes : ℕ
pending_ttl_minutes = 30

abbrev pub post_upload_max_retries : ℕ
post_upload_max_retries = 3

-- payload || {'official_number': …}; a common job writes no number.
abbrev pub numbered : Option Text → Payload → Payload
numbered none p = p
numbered (some n) p = record p { official_number = some n }

abbrev pub signed_row : Option Text → ℕ → Session → Session
signed_row number now r = record r {
  status = signed;
  updated_at = now;
  payload = numbered number r.payload;
}

abbrev pub recoverable_row : ℕ → ℕ → Session → Bool
recoverable_row worker id r =
    r.session_id == id
    && (same_status r.status pending
        || (same_status r.status processing
            && elim r.claimed_by [ none ↦ true | some w ↦ w == worker ]))

abbrev pub recovered_row : ℕ → Option Text → ℕ → Session → Session
recovered_row worker number now r = record (signed_row number now r) { claimed_by = some worker }

-- The two statements that close a job as signed: on the own claim, or on a job that no other worker
-- holds.
abbrev pub mark_claimed : ℕ → ℕ → ℕ → Option Text → List Session → List Session
mark_claimed worker now id number rows =
    update_if (claimed_row worker id) (signed_row number now) rows

abbrev pub mark_recoverable : ℕ → ℕ → ℕ → Option Text → List Session → List Session
mark_recoverable worker now id number rows =
    update_if (recoverable_row worker id) (recovered_row worker number now) rows

-- What the log and the mail tell: the claim was there, the job was recovered, or another worker
-- holds it and it is left.
pub data Marked : Type 0 where
  by_claim recovered blocked : Marked

-- `_mark_session_signed`, with the official number, and `_mark_session_signed_common`, without one.
unfoldable pub mark_session_signed : ℕ → ℕ → ℕ → Option Text → List Session → Marked × List Session
mark_session_signed worker now id number rows =
    if count_if (claimed_row worker id) rows == 0
    then (
      if count_if (recoverable_row worker id) rows == 0 then blocked else recovered,
      mark_recoverable worker now id number rows,
    )
    else (by_claim, mark_claimed worker now id number rows)

-- `_mark_dts_signed`
abbrev pub mark_dts_signed : ℕ → ℕ → List Session → List Session
mark_dts_signed now id rows =
    update_if (λ r. row_in processing id r && same_job r.job_type dts) (signed_row none now) rows

-- `[:n]`
abbrev pub clip : ℕ → Text → Text
clip zero t = []
clip (suc n) [] = []
clip (suc n) (c ∷ t) = c ∷ clip n t

abbrev pub failed_row : Text → ℕ → Session → Session
failed_row reason now r = record r {
  status = failed;
  failure_reason = some (clip 500 reason);
  updated_at = now;
}

-- `_mark_session_failed`; whoever holds the claim.
abbrev pub mark_session_failed : ℕ → ℕ → Text → List Session → List Session
mark_session_failed now id reason rows =
    update_if (row_in processing id) (failed_row reason now) rows

abbrev pub requeued : ℕ → ℕ → Option ℕ → Session → Session
requeued now ttl available r = record (unclaimed r) {
  expires_at = now + minutes ttl;
  available_at = available;
  updated_at = now;
}

-- `_requeue_session_pending`; whoever holds the claim.
abbrev pub requeue_session_pending : ℕ → ℕ → ℕ → List Session → List Session
requeue_session_pending now id retry_after rows =
    let available = if ltb 0 retry_after then some (now + seconds retry_after) else none in
    update_if (row_in processing id) (requeued now pending_ttl_minutes available) rows

abbrev pub with_guard_attempts : ℕ → Payload → Payload
with_guard_attempts n p = record p { guard_check_attempts = some n }

abbrev pub requeued_with : ℕ → ℕ → ℕ → Payload → Session → Session
requeued_with now ttl retry_after payload r =
    record (requeued now ttl (some (now + seconds retry_after)) r) { payload = payload }

-- The requeue with a payload in place of the row's.
abbrev pub requeue_with : ℕ → ℕ → ℕ → ℕ → Payload → List Session → List Session
requeue_with now id ttl retry_after payload rows =
    update_if (row_in processing id) (requeued_with now ttl retry_after payload) rows

-- `payload.get(k, 0)`, a COALESCE
abbrev pub or_zero : Option ℕ → ℕ
or_zero none = 0
or_zero (some n) = n

unfoldable pub guard_reason : Text → ℕ → Text
guard_reason origin attempts =
    codes "guard_unverifiable_"
    ++ (origin
        ++ (codes ": no se pudo leer reservation_status tras "
            ++ (decimal attempts
                ++ codes
                    " intentos — el job se detiene para no re-firmar sin poder verificar (GDI-276 fail-closed + techo 18/08)")))

-- `_requeue_guard_unverifiable`; `limit` is ESCRI_GUARD_MAX_ATTEMPTS. The attempts are counted on the
-- payload that the job was claimed with.
unfoldable pub requeue_guard_unverifiable :
    ℕ → ℕ → ℕ → Payload → Text → ℕ → List Session → List Session
requeue_guard_unverifiable limit now id payload origin retry_after rows =
    let attempts = suc (or_zero payload.guard_check_attempts) in
    if leb limit attempts
    then mark_session_failed now id (guard_reason origin attempts) rows
    else requeue_with now id pending_ttl_minutes retry_after (with_guard_attempts attempts payload)
        rows

abbrev pub count_retry : ℕ → Session → Session
count_retry now r = record r {
  payload = record r.payload {
    update_retry_count = some (suc (or_zero r.payload.update_retry_count));
  };
  updated_at = now;
}

-- The first statement of `_requeue_or_fail_post_upload`: the row, whatever its status.
abbrev pub count_update_retry : ℕ → ℕ → List Session → List Session
count_update_retry now id rows = update_if (with_id id) (count_retry now) rows

abbrev pub returned_count : Option Session → ℕ
returned_count none = post_upload_max_retries
returned_count (some r) = elim r.payload.update_retry_count [
  | none ↦ post_upload_max_retries
  | some n ↦ n
]

-- `_requeue_or_fail_post_upload`; `reason` is the code of the exception.
unfoldable pub requeue_or_fail_post_upload : ℕ → ℕ → Text → List Session → List Session
requeue_or_fail_post_upload now id reason rows =
    let counted = count_update_retry now id rows in
    let n = returned_count (find_if (with_id id) counted) in
    if leb post_upload_max_retries n
    then mark_session_failed now id reason counted
    else update_if (row_in processing id)
        (requeued now pending_ttl_minutes (some (now + seconds (30 * n)))) counted

abbrev pub uploaded_row : ℕ → Session → Session
uploaded_row now r = record r {
  payload = record r.payload { signed_uploaded = true };
  updated_at = now;
}

-- payload || {'signed_uploaded': true}, the marker that the signed PDF is in the bucket.
abbrev pub mark_uploaded : ℕ → ℕ → List Session → List Session
mark_uploaded now id rows = update_if (with_id id) (uploaded_row now) rows

abbrev pub hashed_row : ℕ → ℕ → Session → Session
hashed_row now digest r = record r {
  payload = record r.payload { unsigned_sha256 = some digest };
  updated_at = now;
}

-- payload || {'unsigned_sha256': …}
abbrev pub save_unsigned_sha256 : ℕ → ℕ → ℕ → List Session → List Session
save_unsigned_sha256 now id digest rows = update_if (with_id id) (hashed_row now digest) rows

abbrev pub unpublished_row : ℕ → Payload → Session → Session
unpublished_row now payload r = record r {
  payload = record payload { publish_failed = true };
  updated_at = now;
}

-- The marker of `_publish_public_with_retry`, on the payload that it was given.
abbrev pub mark_publish_failed : ℕ → ℕ → Payload → List Session → List Session
mark_publish_failed now id payload rows = update_if (with_id id) (unpublished_row now payload) rows
