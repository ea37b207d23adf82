-- ===== src/Signing/Claims.antt =====
-- workers/escri.py: how a worker claims the jobs of public.signing_sessions and holds them. Each
-- statement takes the rows and gives them back changed, with what RETURNING tells.
use gdi_backend.Prelude.{
  ℕ, zero, suc, ◌+◌, Bool, true, false, ◌&&◌, ◌||◌, not, Option, none, some, List, [], ◌∷◌, ltb,
  leb, ◌==◌, count_if, least_if, update_if,
}
use gdi_backend.Signing.Tables.{
  pending, processing, JobType, dts, Session, minutes, same_status, claimed_row, unclaimed,
}

-- PROCESSING_TTL_MINUTES
abbrev pub processing_ttl_minutes : ℕ
processing_ttl_minutes = 10

-- job_type IN ('sign', 'sign_common', 'sign_citizen', 'digital_complete')
abbrev pub is_worker_job : JobType → Bool
is_worker_job dts = false
is_worker_job _ = true

-- available_at IS NULL OR available_at <= NOW()
abbrev pub is_available : ℕ → Session → Bool
is_available now r = elim r.available_at [ none ↦ true | some t ↦ leb t now ]

-- The rows that the claim chooses from. `locked` says which ones another transaction holds: SKIP
-- LOCKED leaves them out.
abbrev pub is_claimable : ℕ → (ℕ → Bool) → Session → Bool
is_claimable now locked r =
    same_status r.status pending
    && is_worker_job r.job_type
    && is_available now r
    && not (locked r.session_id)

-- COUNT(*) of the jobs of a tenant in status 'processing'
abbrev pub in_flight : List Session → ℕ → ℕ
in_flight rows schema =
    count_if (λ r. same_status r.status processing && r.schema_name == schema) rows

-- ORDER BY COALESCE(v.en_vuelo, 0), s.created_at; of rows that tie, the first of the table.
unfoldable pub goes_first : List Session → Session → Session → Bool
goes_first rows a b =
    let m = in_flight rows a.schema_name in
    let n = in_flight rows b.schema_name in ltb m n || (m == n && leb a.created_at b.created_at)

abbrev pub claim_by : ℕ → ℕ → Session → Session
claim_by worker now r = record r {
  status = processing;
  claimed_at = some now;
  claimed_by = some worker;
  expires_at = now + minutes processing_ttl_minutes;
  available_at = none;
  updated_at = now;
}

abbrev pub with_id : ℕ → Session → Bool
with_id id r = r.session_id == id

abbrev pub claim_chosen : ℕ → ℕ → List Session → Option Session → Option Session × List Session
claim_chosen worker now rows none = (none, rows)
claim_chosen worker now rows (some s) =
    (some (claim_by worker now s), update_if (with_id s.session_id) (claim_by worker now) rows)

-- `_claim_one`
unfoldable pub claim_one : ℕ → ℕ → (ℕ → Bool) → List Session → Option Session × List Session
claim_one worker now locked rows =
    claim_chosen worker now rows (least_if (goes_first rows) (is_claimable now locked) rows)

abbrev pub claim_on :
    (List Session → List Session × List Session)
    → Option Session × List Session
    → List Session × List Session
claim_on next (none, rows) = ([], rows)
claim_on next (some job, rows) = let (jobs, rows') = next rows in (job ∷ jobs, rows')

-- `_claim_batch`: at most `max_n` claims, and none after one that finds nothing. What it then
-- compares and logs changes nothing.
unfoldable pub claim_batch : ℕ → ℕ → (ℕ → Bool) → ℕ → List Session → List Session × List Session
claim_batch worker now locked zero rows = ([], rows)
claim_batch worker now locked (suc n) rows =
    claim_on (claim_batch worker now locked n) (claim_one worker now locked rows)

abbrev pub handed_back : ℕ → Session → Session
handed_back now r = record (unclaimed r) { available_at = none; updated_at = now }

-- `_requeue_in_flight_on_cancel`: what a worker that shuts down does with the job it holds.
abbrev pub requeue_in_flight_on_cancel : ℕ → ℕ → ℕ → List Session → List Session
requeue_in_flight_on_cancel worker now id rows =
    update_if (claimed_row worker id) (handed_back now) rows

abbrev pub renewed : ℕ → Session → Session
renewed now r = record r { expires_at = now + minutes processing_ttl_minutes; updated_at = now }

abbrev pub touched : ℕ → Session → Session
touched now r = record r { updated_at = now }

-- `_renew_claim`: whether the worker still holds the job, and a new deadline if it does.
abbrev pub renew_claim : ℕ → ℕ → ℕ → List Session → Bool × List Session
renew_claim worker now id rows =
    let held = ltb 0 (count_if (claimed_row worker id) rows) in
    (held, update_if (claimed_row worker id) (renewed now) rows)

-- The fence before an upload.
abbrev pub upload_fence : ℕ → ℕ → ℕ → List Session → Bool × List Session
upload_fence worker now id rows =
    let held = ltb 0 (count_if (claimed_row worker id) rows) in
    (held, update_if (claimed_row worker id) (touched now) rows)
