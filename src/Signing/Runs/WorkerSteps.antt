-- ===== src/Signing/Runs/WorkerSteps.antt =====
-- Each statement of workers/escri.py on public.signing_sessions, as a change of rows that are allowed
-- to change so.
use gdi_backend.Prelude.{
  ℕ, suc, ◌+◌, ◌*◌, ◌≡◌, refl, Bool, true, Option, none, some, List, arith, leb, ◌==◌, Bool-cases,
  inl, inr, count_if, find_if, update_if, least_if, least_if-Mem, subst, sym,
}
use gdi_backend.Prelude.Texts.{Text}
use gdi_backend.Signing.Tables.{processing, Payload, Session, is_live, row_in, claimed_row, seconds}
use gdi_backend.Signing.Claims.{
  claim_one, claim_chosen, claim_by, with_id, goes_first, is_claimable,
}
use gdi_backend.Signing.Closing.{
  mark_session_signed, recoverable_row, recovered_row, signed_row, count_retry, mark_session_failed,
  failed_row, requeued, requeue_with, requeued_with, requeue_guard_unverifiable,
  with_guard_attempts, guard_reason, pending_ttl_minutes, or_zero, requeue_or_fail_post_upload,
  count_update_retry, returned_count, post_upload_max_retries,
}
use gdi_backend.Signing.Runs.{Allowed, Evolves}
use gdi_backend.Signing.Runs.Rows.{
  Evolves_refl, Evolves_trans, update_if-Evolves, note-Allowed, live-Allowed,
}
use gdi_backend.Signing.Runs.Keys.{UniqueIds, same_id-eq}

row_in-live : (id : ℕ) (r : Session) → row_in processing id r ≡ true → is_live r.status ≡ true
row_in-live id r h = ground (arith, h)

-- An UPDATE on the jobs in process, or on those of them that a worker holds.
pub in_process-Evolves :
    (id : ℕ) (f : Session → Session) (rows : List Session)
    → ((r : Session) → is_live r.status ≡ true → Allowed r (f r))
    → Evolves rows (update_if (row_in processing id) f rows)
in_process-Evolves id f rows allowed =
    update_if-Evolves (row_in processing id) f rows (λ r m h. allowed r (row_in-live id r h))

pub claim_one-Evolves :
    (worker now : ℕ) (locked : ℕ → Bool) (rows : List Session)
    → UniqueIds rows
    → Evolves rows (claim_one worker now locked rows).1
unfolding claim_one
claim_one-Evolves worker now locked rows u =
    chosen (least_if (goes_first rows) (is_claimable now locked) rows) refl
  where
    chosen :
        (o : Option Session)
        → least_if (goes_first rows) (is_claimable now locked) rows ≡ o
        → Evolves rows (claim_chosen worker now rows o).1
    chosen none e = Evolves_refl rows
    chosen (some s) e =
        let (m, passes) = least_if-Mem (goes_first rows) (is_claimable now locked) rows e in
        update_if-Evolves (with_id s.session_id) (claim_by worker now) rows (λ r n same.
          let eq : r ≡ s = same_id-eq rows n m (ground (arith, same)) u.at_most_one in
          live-Allowed r
            (ground (arith, subst (λ q. is_claimable now locked q ≡ true) (sym eq) passes))
            (λ h. refl))

pub held-Evolves :
    (worker id : ℕ) (f : Session → Session) (rows : List Session)
    → ((r : Session) → is_live r.status ≡ true → Allowed r (f r))
    → Evolves rows (update_if (claimed_row worker id) f rows)
held-Evolves worker id f rows allowed =
    update_if-Evolves (claimed_row worker id) f rows
      (λ r m h. allowed r (row_in-live id r (ground (arith, h))))

pub mark_session_signed-Evolves :
    (worker now id : ℕ) (number : Option Text) (rows : List Session)
    → Evolves rows (mark_session_signed worker now id number rows).1
unfolding mark_session_signed
mark_session_signed-Evolves worker now id number rows =
    elim (Bool-cases (count_if (claimed_row worker id) rows == 0)) [
      | inl e ↦ rw e (
          update_if-Evolves (recoverable_row worker id) (recovered_row worker number now) rows
            (λ r m h. live-Allowed r (ground (arith, h)) (λ k. refl)))
      | inr e ↦ rw e (
          held-Evolves worker id (signed_row number now) rows
            (λ r live. live-Allowed r live (λ k. refl)))
    ]

pub mark_session_failed-Evolves :
    (now id : ℕ) (reason : Text) (rows : List Session)
    → Evolves rows (mark_session_failed now id reason rows)
mark_session_failed-Evolves now id reason rows =
    in_process-Evolves id (failed_row reason now) rows (λ r live. live-Allowed r live (λ k. refl))

pub requeued-Evolves :
    (now id ttl : ℕ) (available : Option ℕ) (rows : List Session)
    → Evolves rows (update_if (row_in processing id) (requeued now ttl available) rows)
requeued-Evolves now id ttl available rows =
    in_process-Evolves id (requeued now ttl available) rows
      (λ r live. live-Allowed r live (λ k. refl))

pub requeue_with-Evolves :
    (now id ttl retry_after : ℕ) (payload : Payload) (rows : List Session)
    → Evolves rows (requeue_with now id ttl retry_after payload rows)
requeue_with-Evolves now id ttl retry_after payload rows =
    in_process-Evolves id (requeued_with now ttl retry_after payload) rows
      (λ r live. live-Allowed r live (λ k. refl))

pub requeue_guard_unverifiable-Evolves :
    (limit now id : ℕ) (payload : Payload) (origin : Text) (retry_after : ℕ) (rows : List Session)
    → Evolves rows (requeue_guard_unverifiable limit now id payload origin retry_after rows)
unfolding requeue_guard_unverifiable
requeue_guard_unverifiable-Evolves limit now id payload origin retry_after rows =
    let n = suc (or_zero payload.guard_check_attempts) in
    elim (Bool-cases (leb limit n)) [
      | inl e ↦ rw e (mark_session_failed-Evolves now id (guard_reason origin n) rows)
      | inr e ↦ rw e (
          requeue_with-Evolves now id pending_ttl_minutes retry_after
            (with_guard_attempts n payload) rows)
    ]

-- A statement on the row of an id, whatever its status, that only notes something.
pub noted-Evolves :
    (p : Session → Bool) (f : Session → Session) (rows : List Session)
    → ((r : Session) → Allowed r (f r))
    → Evolves rows (update_if p f rows)
noted-Evolves p f rows allowed = update_if-Evolves p f rows (λ r m h. allowed r)

pub requeue_or_fail_post_upload-Evolves :
    (now id : ℕ) (reason : Text) (rows : List Session)
    → Evolves rows (requeue_or_fail_post_upload now id reason rows)
unfolding requeue_or_fail_post_upload
requeue_or_fail_post_upload-Evolves now id reason rows =
    let counted = count_update_retry now id rows in
    let n = returned_count (find_if (with_id id) counted) in
    let first : Evolves rows counted =
      noted-Evolves (with_id id) (count_retry now) rows (λ r. note-Allowed r) in
    elim (Bool-cases (leb post_upload_max_retries n)) [
      | inl e ↦ rw e (Evolves_trans first (mark_session_failed-Evolves now id reason counted))
      | inr e ↦ rw e (
          Evolves_trans first
            (requeued-Evolves now id pending_ttl_minutes (some (now + seconds (30 * n))) counted))
    ]
