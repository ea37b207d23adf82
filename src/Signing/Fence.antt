-- ===== src/Signing/Fence.antt =====
-- workers/escri.py: which statements on a job in process look at the claim, and which do not.
use gdi_backend.Prelude.{
  ℕ, ◌+◌, ◌≡◌, refl, true, false, Option, none, some, List, [], ◌∷◌, arith, ltb, ◌==◌, eq_some,
  if◌then◌else◌, Bool-cases, inl, inr, count_if, update_if,
}
use gdi_backend.Prelude.Texts.{Text}
use gdi_backend.Signing.Tables.{processing, Session, seconds, same_status, row_in, claimed_row}
use gdi_backend.Signing.Claims.{handed_back, requeue_in_flight_on_cancel, upload_fence}
use gdi_backend.Signing.Closing.{
  pending_ttl_minutes, failed_row, mark_session_failed, requeued, requeue_session_pending,
}

-- Rows that leave the status 'processing' are claimed rows no more.
none_claimed :
    (worker id : ℕ) (f : Session → Session) (rows : List Session)
    → ((r : Session) → same_status (f r).status processing ≡ false)
    → count_if (claimed_row worker id) (update_if (row_in processing id) f rows) ≡ 0
none_claimed worker id f [] leaves = omega arith
none_claimed worker id f (r ∷ rows) leaves = elim (Bool-cases (row_in processing id r)) [
  | inl e ↦ rw e (ground (arith, leaves r, none_claimed worker id f rows leaves))
  | inr e ↦ rw e (ground (arith, e, none_claimed worker id f rows leaves))
]

others_claimed :
    (v w now id : ℕ) (rows : List Session)
    → (v == w) ≡ false
    → count_if (claimed_row v id) (update_if (claimed_row w id) (handed_back now) rows)
      ≡ count_if (claimed_row v id) rows
others_claimed v w now id [] other = refl
others_claimed v w now id (r ∷ rows) other = elim (Bool-cases (claimed_row w id r)) [
  | inl e ↦
      rw e (ground (arith, e, other, one_holder r.claimed_by, others_claimed v w now id rows other))
  | inr e ↦ rw e (ground (arith, others_claimed v w now id rows other))
]
  where
    one_holder : (o : Option ℕ) → eq_some o w ≡ true → eq_some o v ≡ false
    one_holder none h = cc
    one_holder (some x) h = ground (arith, h, other)

-- `_requeue_session_pending` and `_mark_session_failed` do not look at the claim: after either, no
-- worker passes the fence of the upload, the one that holds the job included. The requeue of a
-- worker that shuts down does: another worker passes the fence after it as it did before.
pub upload_fence-after :
    (v now id : ℕ) (rows : List Session)
    → ((at after : ℕ)
        → (upload_fence v now id (requeue_session_pending at id after rows)).0 ≡ false)
      × ((at : ℕ) (reason : Text)
          → (upload_fence v now id (mark_session_failed at id reason rows)).0 ≡ false)
      × ((w at : ℕ)
          → (v == w) ≡ false
          → (upload_fence v now id (requeue_in_flight_on_cancel w at id rows)).0
            ≡ (upload_fence v now id rows).0)
upload_fence-after v now id rows = (
  λ at after.
      let available = if ltb 0 after then some (at + seconds after) else none in
      rw (none_claimed v id (requeued at pending_ttl_minutes available) rows (λ r. refl)) refl,
  λ at reason. rw (none_claimed v id (failed_row reason at) rows (λ r. refl)) refl,
  λ w at other. rw (others_claimed v w at id rows other) refl,
)
