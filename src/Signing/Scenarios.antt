-- ===== src/Signing/Scenarios.antt =====
-- Runs of the queue of signing jobs (workers/escri.py, workers/sweeper_escri.py) on concrete rows.
use gdi_backend.Prelude.{
  ℕ, ◌+◌, ◌≤◌, ◌<◌, ◌≡◌, refl, Bool, true, false, Option, none, some, List, [], ◌∷◌, Memᴰ, arith,
  ◌==◌, inl, inr, ◌⊎◌, find_if, total,
}
use gdi_backend.Prelude.Texts.{Text, codes}
use gdi_backend.Numbering.Tables.{
  ReservationStatus, reserved, confirming, global, user, OfficialDocument, Db,
}
use gdi_backend.Numbering.Lifecycle.{cancel_number, release_special_lane, is_normal_end}
use gdi_backend.Signing.Tables.{
  Status, pending, processing, signed, sign_common, Session, Draft, signed_draft, DigitalSession,
  closed_token, empty_payload, minutes,
}
use gdi_backend.Signing.Claims.{claim_one, goes_first, claim_by, is_claimable, in_flight, with_id}
use gdi_backend.Signing.Closing.{
  requeue_session_pending, mark_session_failed, requeue_or_fail_post_upload,
}
use gdi_backend.Signing.Runs.{claim_fits, Step, Run}
use gdi_backend.Signing.Runs.WellFormed.{WellFormed, Run-WellFormed}
use gdi_backend.Signing.Runs.Closed.{Run-keeps_closed}
use gdi_backend.Signing.Fair.{claim_one-fair}
use gdi_backend.Signing.Retries.{Try, fail_each, tries_left, fail_each-bounded}
use gdi_backend.Signing.Claims.{requeue_in_flight_on_cancel, upload_fence}
use gdi_backend.Signing.Fence.{upload_fence-after}
use gdi_backend.Signing.Poll.{poll_answer, healed_number, get_async_poll_status}
use gdi_backend.Signing.Polling.{get_async_poll_status-consistent}
use gdi_backend.Signing.Orphans.{Around, Tenant, reserved_orphan, handle_reserved_orphans}
use gdi_backend.Signing.Confirming.{resolve_orphan, confirming_row, confirming_expired}
use gdi_backend.Signing.OrphanLaws.{handle_reserved_orphans-spares}
use gdi_backend.Signing.ConfirmingLaws.{cancelled_count, confirming_row-resolves}

abbrev pub job : ℕ → ℕ → Status → Option ℕ → Session
job id schema status worker = record {
  session_id = id;
  schema_name = schema;
  document_id = 40 + id;
  reservation_id = some (70 + id);
  user_id = some 5;
  citizen_id = none;
  job_type = sign_common;
  status = status;
  failure_reason = none;
  claimed_by = worker;
  claimed_at = none;
  expires_at = 100;
  available_at = none;
  created_at = id;
  updated_at = id;
  payload = empty_payload;
}

-- A tenant with two jobs, one of them in process, and a tenant with one.
abbrev pub queue : List Session
queue = job 1 10 processing (some 8) ∷ job 2 10 pending none ∷ job 3 20 pending none ∷ []

one_row-WellFormed : (r : Session) → claim_fits r ≡ true → WellFormed (r ∷ [])
one_row-WellFormed r h = record {
  unique_ids = record { at_most_one = λ id. ground arith };
  claims_fit = ground (arith, h);
  one_live = λ schema document user. ground arith;
}

abbrev unlocked : ℕ → Bool
unlocked id = false

-- A worker claims a job that waits, and closes it.
Run-WellFormed_example : WellFormed (
    mark_session_failed 30 2
      (codes "db_error")
      (claim_one 8 20 unlocked (job 2 10 pending none ∷ [])).1)
Run-WellFormed_example = Run-WellFormed (one_row-WellFormed (job 2 10 pending none) refl) (
    Run.then_step
      (Run.then_step (Run.stop (job 2 10 pending none ∷ []))
        (Step.claims 8 20 unlocked (job 2 10 pending none ∷ [])))
      (Step.fails 30 2 (codes "db_error") (claim_one 8 20 unlocked (job 2 10 pending none ∷ [])).1))

-- A job that is signed is neither put back nor failed by a worker that comes late.
Run-keeps_closed_example :
    (r' : Session) × (find_if (with_id 2) (
        requeue_session_pending 30 2 5
          (mark_session_failed 20 2 (codes "db_error") (job 2 10 signed (some 8) ∷ [])))
      ≡ some r')
    × (r'.status ≡ signed)
    × (r'.failure_reason ≡ none)
    × (r'.document_id ≡ 42)
    × (r'.user_id ≡ some 5)
Run-keeps_closed_example =
    Run-keeps_closed 2 {r = job 2 10 signed (some 8)}
      (one_row-WellFormed (job 2 10 signed (some 8)) refl)
      (Run.then_step
        (Run.then_step (Run.stop (job 2 10 signed (some 8) ∷ []))
          (Step.fails 20 2 (codes "db_error") (job 2 10 signed (some 8) ∷ [])))
        (Step.requeues 30 2 5
          (mark_session_failed 20 2 (codes "db_error") (job 2 10 signed (some 8) ∷ []))))
      refl refl

-- The tenant with nothing in process is served before the one with an older job.
claim_one-fair_example :
    (((claim_one 9 50 unlocked queue).0 ≡ none)
      × ((z : Session) → Memᴰ z queue → is_claimable 50 unlocked z ≡ false))
    ⊎ ((s : Session) × ((claim_one 9 50 unlocked queue).0 ≡ some (claim_by 9 50 s))
        × Memᴰ s queue
        × (is_claimable 50 unlocked s ≡ true)
        × ((z : Session)
            → Memᴰ z queue
            → is_claimable 50 unlocked z ≡ true
            → (in_flight queue s.schema_name < in_flight queue z.schema_name)
              ⊎ ((in_flight queue s.schema_name ≡ in_flight queue z.schema_name)
                  × (s.created_at ≤ z.created_at))))
claim_one-fair_example = claim_one-fair 9 50 unlocked queue

claims_third : (claim_one 9 50 unlocked queue).0 ≡ some (claim_by 9 50 (job 3 20 pending none))
unfolding claim_one goes_first
claims_third = refl

abbrev attempt : ℕ → Try
attempt now = record { worker = 8; now = now; locked = unlocked; reason = codes "db_error" }

abbrev attempts : List Try
attempts =
    attempt 100_000_000 ∷ attempt 200_000_000 ∷ attempt 300_000_000 ∷ attempt 400_000_000 ∷ []

fail_each-bounded_example :
    (fail_each attempts (job 2 10 pending none ∷ [])).0
    ≤ total tries_left (job 2 10 pending none ∷ [])
fail_each-bounded_example =
    fail_each-bounded attempts (job 2 10 pending none ∷ [])
      (one_row-WellFormed (job 2 10 pending none) refl)

-- Three claims, and none the fourth time.
three_claims : (fail_each attempts (job 2 10 pending none ∷ [])).0 ≡ 3
unfolding fail_each claim_one goes_first requeue_or_fail_post_upload
three_claims = refl

upload_fence-after_example :
    ((at after : ℕ) → (upload_fence 8 60 1 (requeue_session_pending at 1 after queue)).0 ≡ false)
    × ((at : ℕ) (reason : Text)
        → (upload_fence 8 60 1 (mark_session_failed at 1 reason queue)).0 ≡ false)
    × ((w at : ℕ)
        → (8 == w) ≡ false
        → (upload_fence 8 60 1 (requeue_in_flight_on_cancel w at 1 queue)).0
          ≡ (upload_fence 8 60 1 queue).0)
upload_fence-after_example = upload_fence-after 8 60 1 queue

holder_passes : (upload_fence 8 60 1 queue).0 ≡ true
holder_passes = refl

-- The document of job 1 is signed already.
abbrev drafts : List Draft
drafts = record { id = 41; status = signed_draft; document_number = some (codes "IF-2026-1") } ∷ []

get_async_poll_status-consistent_example :
    ((let (a, rows') = get_async_poll_status true 60 1 5 10 drafts queue in
        (a ≡ none) × (rows' ≡ queue))
      ⊎ ((r : Session) × Memᴰ r queue
          × (r.session_id ≡ 1)
          × (r.schema_name ≡ 10)
          × (r.user_id ≡ some 5)
          × ((get_async_poll_status true 60 1 5 10 drafts queue).0
              ≡ some (poll_answer r (healed_number drafts r)))))
    × (let (a, rows') = get_async_poll_status true 60 1 5 10 drafts queue in
        (get_async_poll_status false 90 1 5 10 drafts rows').0 ≡ a)
get_async_poll_status-consistent_example =
    get_async_poll_status-consistent true false 60 90 1 5 10 drafts queue

stranger_sees_nothing : (get_async_poll_status true 60 1 6 10 drafts queue).0 ≡ none
unfolding get_async_poll_status
stranger_sees_nothing = refl

abbrev pub number_row : ℕ → ReservationStatus → OfficialDocument
number_row id status = record {
  id = id;
  official_number = codes "IF-2026-1";
  year = 2026;
  department_id = 3;
  numerator = user 5;
  document_type_id = 4;
  global_sequence = some 1;
  special_number = none;
  regime = global;
  status = status;
  reserved_at = some 0;
  reservation_id = some (30 + id);
  batch_id = none;
  payload = record {
    reference = [];
    content = [];
    resume = none;
    signers = [];
    signer_sector_ids = [];
  };
}

abbrev pub numbers : List OfficialDocument → Db
numbers ds = record {
  municipalities = [];
  departments = [];
  sectors = [];
  users = [];
  document_types = [];
  documents = ds;
  chunks = [];
  counters = [];
}

-- Document 41, reserved under the ticket of job 1, and document 9, which nobody signs.
abbrev tenant : Tenant
tenant = record {
  sessions = queue;
  digitals = [];
  numbers = numbers (number_row 41 reserved ∷ number_row 9 reserved ∷ []);
  drafts = drafts;
}

abbrev around : Around
around = record {
  reserved_expiry_ttl = minutes 15;
  confirming_expiry_ttl = minutes 20;
  confirming_orphan_grace = minutes 10;
  now = 5_000_000_000;
  schema = 10;
  created_at = λ id. 0;
  updated_at = λ id. 0;
  new_id = λ id. 500 + id;
  born = 5_000_000_000;
  exists_oficial = λ n. some false;
  exists_again = λ n. some true;
  fails = λ id. false;
}

handle_reserved_orphans-spares_example :
    Memᴰ (number_row 41 reserved) (handle_reserved_orphans around tenant).numbers.documents
handle_reserved_orphans-spares_example =
    handle_reserved_orphans-spares around tenant (number_row 41 reserved) (Memᴰ.head refl)
      (inr (inl refl))

-- The other one is cancelled.
orphan_cancelled : cancelled_count (handle_reserved_orphans around tenant) ≡ 1
unfolding handle_reserved_orphans reserved_orphan cancel_number release_special_lane is_normal_end
orphan_cancelled = refl

abbrev token : DigitalSession
token = record {
  reservation_id = some 39;
  schema_name = 10;
  user_id = 5;
  status = closed_token;
  failure_reason = none;
  consumed_at = some 1;
  expires_at = 2;
}

selected : confirming_expired around tenant (number_row 9 confirming) ≡ true
unfolding confirming_expired
selected = refl

confirming_row-resolves_example :
    (confirming_row around (number_row 9 confirming) (some token) tenant
      ≡ resolve_orphan around (number_row 9 confirming) 39 tenant)
    × (((some false ≡ some false) × (some true ≡ some false))
        ⊎ (cancelled_count (confirming_row around (number_row 9 confirming) (some token) tenant)
            ≡ cancelled_count tenant))
confirming_row-resolves_example =
    confirming_row-resolves around tenant (number_row 9 confirming) token 39 (omega arith) selected
      refl

-- With a longer grace the number is put under observation, and stays.
abbrev patient : Around
patient = record around { confirming_orphan_grace = minutes 100 }

observed :
    (confirming_row patient (number_row 9 confirming) (some token) tenant).numbers ≡ tenant.numbers
observed = refl
