-- ===== src/Signing/Retries.antt =====
-- workers/escri.py, `_requeue_or_fail_post_upload`: how often a job is tried again whose signature is
-- in the bucket and not in the database.
use gdi_backend.Prelude.{
  ℕ, suc, ◌+◌, ◌-◌, ◌*◌, ◌≤◌, ◌≡◌, refl, sym, ap, ◌∙◌, Bool, true, false, Option, none, some, List,
  [], ◌∷◌, Memᴰ, arith, leb, ◌==◌, ==_refl, if◌then◌else◌, Bool-cases, inl, inr, count_if,
  count_if-Mem, find_if, update_if, least_if, least_if-Mem, update_if-fuse, update_if-idle,
  find_if-updated, total, max, subst,
}
use gdi_backend.Prelude.Texts.{Text}
use gdi_backend.Signing.Tables.{processing, seconds, Session, is_live, row_in}
use gdi_backend.Signing.Claims.{
  with_id, claim_by, claim_one, claim_chosen, goes_first, is_claimable,
}
use gdi_backend.Signing.Closing.{
  or_zero, count_retry, count_update_retry, failed_row, requeued, pending_ttl_minutes,
  post_upload_max_retries, requeue_or_fail_post_upload,
}
use gdi_backend.Signing.Runs.{Step, Run}
use gdi_backend.Signing.Runs.Keys.{UniqueIds, find-row}
use gdi_backend.Signing.Runs.WellFormed.{WellFormed, Run-WellFormed}

-- What the n-th failure after the upload does to a row.
after_failure : ℕ → Text → ℕ → Session → Session
after_failure now reason n =
    if leb post_upload_max_retries n
    then failed_row reason now
    else requeued now pending_ttl_minutes (some (now + seconds (30 * n)))

abbrev claimed_and_counted : ℕ → ℕ → Session → Session
claimed_and_counted worker now r = count_retry now (claim_by worker now r)

abbrev retried_row : ℕ → ℕ → Text → ℕ → Session → Session
retried_row worker now reason n r = after_failure now reason n (claimed_and_counted worker now r)

abbrev retries_of : Session → ℕ
retries_of r = or_zero r.payload.update_retry_count

failure-rows :
    (now id : ℕ) (reason : Text) (n : ℕ) (rows : List Session)
    → (if leb post_upload_max_retries n
        then update_if (row_in processing id) (failed_row reason now) rows
        else update_if
            (row_in processing id)
            (requeued now pending_ttl_minutes (some (now + seconds (30 * n))))
            rows)
      ≡ update_if (row_in processing id) (after_failure now reason n) rows
unfolding after_failure
failure-rows now id reason n rows = elim (Bool-cases (leb post_upload_max_retries n)) [
  | inl e ↦ rw e refl
  | inr e ↦ rw e refl
]

retried-rows :
    (worker now : ℕ) (reason : Text) (rows : List Session) {s : Session}
    → UniqueIds rows
    → Memᴰ s rows
    → requeue_or_fail_post_upload now s.session_id reason
        (update_if (with_id s.session_id) (claim_by worker now) rows)
      ≡ update_if (with_id s.session_id) (retried_row worker now reason (suc (retries_of s))) rows
unfolding requeue_or_fail_post_upload
retried-rows worker now reason rows {s} u m =
    let id = s.session_id in
    let n = suc (retries_of s) in
    let both = update_if (with_id id) (claimed_and_counted worker now) rows in
    let counted : count_update_retry now id (update_if (with_id id) (claim_by worker now) rows)
        ≡ both =
      update_if-fuse (with_id id) (with_id id) (claim_by worker now) (count_retry now) (λ r h. h)
        (λ r h. h) rows in
    let found : find_if (with_id id) both ≡ some (claimed_and_counted worker now s) =
      find_if-updated (with_id id) (claimed_and_counted worker now) rows (λ r h. h)
        (find-row rows u m) in
    rw (counted, found)
      (failure-rows now id reason n both
        ∙ update_if-fuse (with_id id) (row_in processing id) (claimed_and_counted worker now)
            (after_failure now reason n) (λ r h. ground (arith, h)) (λ r h. ground (arith, h)) rows)

-- How many tries a live job has left: three less the failures counted, and one where they are used
-- up and the job is live all the same.
pub tries_left : Session → ℕ
tries_left r = if is_live r.status then max 1 (post_upload_max_retries - retries_of r) else 0

tries_left-retried :
    (worker now : ℕ) (reason : Text) (s : Session)
    → is_live s.status ≡ true
    → suc (tries_left (retried_row worker now reason (suc (retries_of s)) s)) ≤ tries_left s
unfolding tries_left after_failure
tries_left-retried worker now reason s live =
    elim (Bool-cases (leb post_upload_max_retries (suc (retries_of s)))) [
      | inl e ↦ rw (e, live) (omega arith)
      | inr e ↦ rw (e, live) (ground (arith, e))
    ]

-- An UPDATE of the row of one id changes the sum by what it changes that row.
total-updated :
    (w : Session → ℕ) (f : Session → Session) (rows : List Session) {s : Session}
    → UniqueIds rows
    → Memᴰ s rows
    → total w (update_if (with_id s.session_id) f rows) + w s ≡ total w rows + w (f s)
total-updated w f rows {s} u m = go rows m u.at_most_one
  where
    go :
        (qs : List Session)
        → Memᴰ s qs
        → ((id : ℕ) → count_if (with_id id) qs ≤ 1)
        → total w (update_if (with_id s.session_id) f qs) + w s ≡ total w qs + w (f s)
    go [] n v = elim n [ ]
    go (q ∷ qs) (Memᴰ.head e) v =
        let here : (q.session_id == s.session_id) ≡ true = rw (sym e) (==_refl s.session_id) in
        let idle : update_if (with_id s.session_id) f qs ≡ qs =
          update_if-idle (with_id s.session_id) f qs (ground (arith, here, v s.session_id)) in
        rw (here, idle, sym e) (omega arith)
    go (q ∷ qs) (Memᴰ.tail n) v =
        let there : (q.session_id == s.session_id) ≡ false = ground (
          arith,
          v s.session_id,
          count_if-Mem (with_id s.session_id) qs n (==_refl s.session_id),
        ) in
        rw there (omega (arith, go qs n (λ id. omega (arith, v id))))

-- Workers that come one after another, each with its clock, the rows that others hold, and the
-- failure that its job ends in after the upload.
pub record Try : Type 0 where
  pub worker : ℕ
  pub now : ℕ
  pub locked : ℕ → Bool
  pub reason : Text

abbrev pub failing : Try → Option Session × List Session → ℕ × List Session
failing t (none, rows) = (0, rows)
failing t (some job, rows) = (1, requeue_or_fail_post_upload t.now job.session_id t.reason rows)

unfoldable pub fail_each : List Try → List Session → ℕ × List Session
fail_each [] rows = (0, rows)
fail_each (t ∷ ts) rows =
    let (n, rows') = failing t (claim_one t.worker t.now t.locked rows) in
    let (k, rows'') = fail_each ts rows' in (n + k, rows'')

try-WellFormed :
    (t : Try) (rows : List Session)
    → WellFormed rows
    → WellFormed (failing t (claim_one t.worker t.now t.locked rows)).1
try-WellFormed t rows w = go (claim_one t.worker t.now t.locked rows) refl
  where
    go :
        (c : Option Session × List Session)
        → claim_one t.worker t.now t.locked rows ≡ c
        → WellFormed (failing t c).1
    go (none, rows') e =
        subst (λ x. WellFormed x) (ap (λ c. c.1) e)
          (Run-WellFormed w
            (Run.then_step (Run.stop rows) (Step.claims t.worker t.now t.locked rows)))
    go (some job, rows') e =
        let after : WellFormed rows' =
          subst (λ x. WellFormed x) (ap (λ c. c.1) e)
            (Run-WellFormed w
              (Run.then_step (Run.stop rows) (Step.claims t.worker t.now t.locked rows))) in
        Run-WellFormed after
          (Run.then_step (Run.stop rows') (Step.retries t.now job.session_id t.reason rows'))

try-decreases :
    (t : Try) (rows : List Session)
    → WellFormed rows
    → let (n, rows') = failing t (claim_one t.worker t.now t.locked rows) in
      n + total tries_left rows' ≤ total tries_left rows
unfolding claim_one
try-decreases t rows w = go (least_if (goes_first rows) (is_claimable t.now t.locked) rows) refl
  where
    go :
        (o : Option Session)
        → least_if (goes_first rows) (is_claimable t.now t.locked) rows ≡ o
        → let (n, rows') = failing t (claim_chosen t.worker t.now rows o) in
          n + total tries_left rows' ≤ total tries_left rows
    go none e = omega arith
    go (some s) e =
        let (m, passes) = least_if-Mem (goes_first rows) (is_claimable t.now t.locked) rows e in
        let live : is_live s.status ≡ true = ground (arith, passes) in
        rw (retried-rows t.worker t.now t.reason rows w.unique_ids m) (
          omega (
            arith,
            total-updated tries_left (retried_row t.worker t.now t.reason (suc (retries_of s))) rows
                w.unique_ids m,
            tries_left-retried t.worker t.now t.reason s live,
          ))

-- When every job that is claimed fails after its upload, the jobs are claimed no more often in all
-- than they have tries left, three for a job that has not failed yet: after that many there is none
-- to claim, whichever the workers and their clocks.
pub fail_each-bounded :
    (ts : List Try) (rows : List Session)
    → WellFormed rows
    → (fail_each ts rows).0 ≤ total tries_left rows
unfolding fail_each
fail_each-bounded [] rows w = omega arith
fail_each-bounded (t ∷ ts) rows w =
    let rows' = (failing t (claim_one t.worker t.now t.locked rows)).1 in
    omega (arith, try-decreases t rows w, fail_each-bounded ts rows' (try-WellFormed t rows w))
