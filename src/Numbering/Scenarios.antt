-- ===== src/Numbering/Scenarios.antt =====
-- The numbering of a small town: a tenant with one department and one user, a first document, and
-- what the theorems on shared/numbering.py say of them.
use gdi_backend.Prelude.{
  ℕ, ◌≤◌, ◌≡◌, ◌≢◌, refl, sym, ap, ◌∙◌, Memᴰ, find_if, Bool, true, false, Option, none, some, List,
  [], ◌∷◌, arith, ◌==◌, if◌then◌else◌, count_if, ◌↔◌,
}
use gdi_backend.Prelude.Texts.{codes}
use gdi_backend.Numbering.Format.{Text, official_number}
use gdi_backend.Numbering.Tables.{
  ReservationStatus, reserved, confirming, confirmed, cancelled, global, special, user, Payload,
  OfficialDocument, Counter, Db, Constraint, official_documents_pkey, ok, raised, stale_reservation,
  special_lane_busy, unique_violation, Env, Request, Reservation,
}
use gdi_backend.Numbering.Queries.{
  next_global_sequence, delete_own_cancelled, max_sequence, oldest, get_city_acronym,
  get_user_department,
}
use gdi_backend.Numbering.Special.{on_lane, reserve_special}
use gdi_backend.Numbering.Reserve.{reserve_global, take_global, reservation_of}
use gdi_backend.Numbering.Entry.{reserve_number, take_citizen, special_numbering}
use gdi_backend.Numbering.Lifecycle.{
  confirm_number, finalize_number, done, cancel_number, is_normal_end, live_sibling,
}
use gdi_backend.Numbering.Sequence.{holds, HasUniqueSequences}
use gdi_backend.Numbering.Numbers.{HasUniqueNumbers}
use gdi_backend.Numbering.Runs.{
  Call, reserve, generate, confirm, finalize, cancel, run, run-HasUniqueNumbers,
}
use gdi_backend.Numbering.Permanent.{final}
use gdi_backend.Numbering.Permanent.Calls.{run-KeepsConfirmed}
use gdi_backend.Numbering.Tickets.{confirm-once, cancel-beats-confirm}
use gdi_backend.Numbering.Retry.{has_id, HasPrimaryKey, reserve_global-retry}
use gdi_backend.Numbering.Recycle.{recycled-number}
use gdi_backend.Numbering.Lost.{reserve_global-loses-number, take_citizen-stuck}
use gdi_backend.Numbering.Blocked.{Blocks, HasOneRow}
use gdi_backend.Numbering.Takeover.{reserve_special-busy_iff, reserve_special-takes_over}
use gdi_backend.Numbering.Distinct.{official_number-distinct}

-- The primary key alone.
abbrev town_violated : OfficialDocument → List OfficialDocument → Option Constraint
town_violated d ds = if count_if (has_id d.id) ds == 0 then none else some official_documents_pkey

abbrev town_env : Env
town_env = record {
  now = 1_000_000;
  ticket = 77;
  locked = λ id. false;
  violated = town_violated;
  sorts_before = λ a b. true;
}

abbrev later_env : Env
later_env = record town_env { now = 200_000_000; ticket = 78 }

town_key : HasPrimaryKey town_env
town_key = record { admits = λ d ds z. rw z; refuses = λ d ds h. ground arith }

later_key : HasPrimaryKey later_env
later_key = record { admits = λ d ds z. rw z; refuses = λ d ds h. ground arith }

abbrev no_payload : Payload
no_payload = record {
  reference = [];
  content = [];
  resume = none;
  signers = [];
  signer_sector_ids = [];
}

abbrev lp : Text
lp = codes "LP"

abbrev obras : Text
obras = codes "OBR"

abbrev town : Db
town = record {
  municipalities = record { schema_name = 100; acronym = lp } ∷ [];
  departments = record { id = 1; acronym = some obras; is_active = true; is_system = false } ∷ [];
  sectors = record { id = 2; department_id = some 1 } ∷ [];
  users = record { id = 3; sector_id = some 2 } ∷ [];
  document_types =
      record { id = 4; special_numbering = false }
      ∷ record { id = 5; special_numbering = true }
      ∷ [];
  documents = [];
  chunks = [];
  counters = [];
}

abbrev request : ℕ → Request
request id = record {
  type_acronym = codes "IF";
  year = 2026;
  schema_name = 100;
  document_id = id;
  document_type_id = 4;
  payload = no_payload;
  batch_id = none;
}

abbrev special_request : ℕ → Request
special_request id = record (request id) { document_type_id = 5 }

abbrev reason : Text
reason = codes "cancelled_by_user"

-- The first reservation of the town, as the caller sees it.
first_number :
    (number : Text) × (db : Db) × (reserve_number town_env (request 9) 3 town
      ≡ ok (
        record { number = number; department = 1; sequence = some 1; reservation = some 77 },
        db,
      ))
    × (number ≡ codes "IF-2026-00000001-LP-OBR")
unfolding reserve_number get_city_acronym get_user_department special_numbering reserve_global
    take_global next_global_sequence oldest max_sequence delete_own_cancelled official_number
first_number = (codes "IF-2026-00000001-LP-OBR", _, refl, refl)

user_cancel_is_quiet : is_normal_end (codes "  cancelled_by_user ") ≡ true
unfolding is_normal_end
user_cancel_is_quiet = refl

town-HasUniqueNumbers : HasUniqueNumbers town
town-HasUniqueNumbers = record {
  sequences = record { at_most_one = λ y s. omega arith; unmixed = refl };
  special = record {
    at_most_one = λ t dp y s. omega arith;
    counted = λ t dp y s h. refl;
    numbered = refl;
  };
}

abbrev day : List (Env × Call)
day =
    (town_env, reserve (request 9) 3)
    ∷ (town_env, cancel 9 reason none true (reserved ∷ []))
    ∷ (later_env, reserve (special_request 10) 3)
    ∷ (later_env, confirm 10 78)
    ∷ (later_env, finalize 10 78)
    ∷ (later_env, generate (request 11) 3)
    ∷ []

run-HasUniqueNumbers_example : HasUniqueNumbers (run day town)
run-HasUniqueNumbers_example =
    run-HasUniqueNumbers day town
      (λ i. refl, (λ i. refl, (λ i. refl, (λ i. refl, (λ i. refl, (λ i. refl, tt))))))
      town-HasUniqueNumbers

run-KeepsConfirmed_example :
    count_if (final (λ d. d.id == 11)) town.documents
    ≤ count_if (final (λ d. d.id == 11)) (run day town).documents
run-KeepsConfirmed_example =
    run-KeepsConfirmed day town (tt, (refl, (tt, (tt, (tt, (tt, tt)))))) (λ d. d.id == 11)

-- A row of the GLOBAL regime with the ticket 77.
abbrev row : ℕ → ReservationStatus → ℕ → OfficialDocument
row id status n = record {
  id = id;
  official_number = codes "IF";
  year = 2026;
  department_id = 1;
  numerator = user 3;
  document_type_id = 4;
  global_sequence = some n;
  special_number = none;
  regime = global;
  status = status;
  reserved_at = some n;
  reservation_id = some 77;
  batch_id = none;
  payload = no_payload;
}

abbrev with_rows : List OfficialDocument → Db
with_rows ds = record town { documents = ds }

confirm-once_example :
    (db' : Db) × (confirm_number 9 77 (with_rows (row 9 reserved 1 ∷ [])) ≡ ok (tt, db'))
    × (confirm_number 9 77 db' ≡ raised stale_reservation)
    × ((finalize_number 9 77 db').0 ≡ done)
    × ((why : Text) (alert : Bool)
        → let (c, db'') = cancel_number 9 why (some 77) alert (reserved ∷ []) db' in
          (c.rows_cancelled ≡ 0) × (db'' ≡ db'))
confirm-once_example = confirm-once 9 77 (with_rows (row 9 reserved 1 ∷ [])) (omega arith)

cancel-beats-confirm_example :
    confirm_number 9 77
      (cancel_number 9 reason none true (reserved ∷ []) (with_rows (row 9 reserved 1 ∷ []))).1
    ≡ raised stale_reservation
cancel-beats-confirm_example =
    cancel-beats-confirm 9 77 reason none true (reserved ∷ []) (with_rows (row 9 reserved 1 ∷ []))
      tt refl

reserve_global-retry_example :
    (r : Reservation × Db) × (reserve_global town_env (request 9) 3 lp (obras, 1) town ≡ ok r)
    × (r.0.reservation ≡ some 77)
    × (reserve_global later_env (request 9) 3 lp (obras, 1) r.1 ≡ ok r)
reserve_global-retry_example =
    reserve_global-retry town_env later_env (request 9) 3 lp (obras, 1) town town_key refl
      (omega arith)

recycled-number_example :
    (r : Reservation × Db) × (reserve_global town_env (request 9) 3 lp (obras, 1) town ≡ ok r)
    × (r' : Reservation × Db) × (reserve_global later_env
          (request 10)
          3
          lp
          (obras, 1)
          (cancel_number 9 reason none true (reserved ∷ []) r.1).1
        ≡ ok r')
    × (r'.0.sequence ≡ r.0.sequence)
recycled-number_example =
    recycled-number town_env later_env town_key later_key (request 9) (request 10) 3 3 lp (obras, 1)
      (obras, 1) town reason true refl (omega arith) refl refl refl refl

abbrev two_rows : Db
two_rows = with_rows (row 9 confirmed 2 ∷ row 8 cancelled 1 ∷ [])

two_rows-HasUniqueSequences : HasUniqueSequences two_rows
two_rows-HasUniqueSequences = record { at_most_one = λ y s. ground arith; unmixed = refl }

reserve_global-loses-number_example :
    (db' : Db) × (reserve_global town_env (request 9) 3 lp (obras, 1) two_rows
      ≡ ok (reservation_of (row 9 confirmed 2) (some 2), db'))
    × (count_if (holds 2026 1) two_rows.documents ≡ 1)
    × (count_if (holds 2026 1) db'.documents ≡ 0)
unfolding oldest
reserve_global-loses-number_example =
    reserve_global-loses-number town_env town_key (request 9) 3 lp (obras, 1) two_rows
      two_rows-HasUniqueSequences refl refl refl refl

abbrev two_cancelled : Db
two_cancelled = with_rows (row 9 cancelled 2 ∷ row 8 cancelled 1 ∷ [])

take_citizen-stuck_example :
    take_citizen town_env (request 9) 6 lp (obras, 1) two_cancelled
    ≡ raised (unique_violation official_documents_pkey)
unfolding oldest
take_citizen-stuck_example =
    take_citizen-stuck town_env town_key (request 9) 6 lp (obras, 1) two_cancelled refl
      (omega arith)

-- A row of the lane of type 5, of a batch.
abbrev batch_row : ℕ → ReservationStatus → ℕ → OfficialDocument
batch_row id status n = record (row id status n) {
  document_type_id = 5;
  global_sequence = none;
  special_number = some n;
  regime = special;
  batch_id = some 50;
}

abbrev lane_counter : Counter
lane_counter = record {
  document_type_id = 5;
  year = 2026;
  department_id = 1;
  last_number = 2;
  active_document_id = some 20;
  active_batch_id = some 50;
}

abbrev lane_tables : ReservationStatus → Db
lane_tables holder = record town {
  documents = batch_row 20 holder 1 ∷ batch_row 21 reserved 2 ∷ [];
  counters = lane_counter ∷ [];
}

lane_one_row : HasOneRow (lane_tables reserved)
lane_one_row d e (Memᴰ.head h) (Memᴰ.head k) same = h ∙ sym k
lane_one_row d e (Memᴰ.head h) (Memᴰ.tail (Memᴰ.head k)) same =
    absurd (let ids : 20 ≡ 21 = ap (λ x. x.id) (sym h) ∙ (same ∙ ap (λ x. x.id) k) in omega arith)
lane_one_row d e (Memᴰ.tail (Memᴰ.head h)) (Memᴰ.head k) same =
    absurd (let ids : 21 ≡ 20 = ap (λ x. x.id) (sym h) ∙ (same ∙ ap (λ x. x.id) k) in omega arith)
lane_one_row d e (Memᴰ.tail (Memᴰ.head h)) (Memᴰ.tail (Memᴰ.head k)) same = h ∙ sym k
lane_one_row d e (Memᴰ.head h) (Memᴰ.tail (Memᴰ.tail m)) same = elim m [ ]
lane_one_row d e (Memᴰ.tail (Memᴰ.head h)) (Memᴰ.tail (Memᴰ.tail m)) same = elim m [ ]
lane_one_row d e (Memᴰ.tail (Memᴰ.tail m)) k same = elim m [ ]

reserve_special-busy_iff_example :
    (reserve_special town_env (special_request 30) 3 lp (obras, 1) (lane_tables reserved)
      ≡ raised special_lane_busy)
    ↔ ((c : Counter) × (d : OfficialDocument) × (find_if
            (on_lane 5 2026 1)
            (lane_tables reserved).counters
          ≡ some c)
        × Memᴰ d (lane_tables reserved).documents
        × Blocks c (special_request 30) 3 d)
reserve_special-busy_iff_example =
    reserve_special-busy_iff town_env (special_request 30) 3 lp (obras, 1) (lane_tables reserved)
      lane_one_row

-- User 3 asks while user 8 holds the lane with another batch.
lane_is_busy :
    reserve_special town_env (special_request 30) 3 lp (obras, 1) (lane_tables reserved)
    ≡ raised special_lane_busy
lane_is_busy = reserve_special-busy_iff_example.1 (
  lane_counter,
  batch_row 20 reserved 1,
  refl,
  Memᴰ.head refl,
  (refl, refl, λ h. omega arith, λ (b, e, f, g). cc),
)

reserve_special-takes_over_example :
    (r : Reservation × Db) × (reserve_special town_env
        (special_request 30)
        8
        lp
        (obras, 1)
        (lane_tables confirming)
      ≡ ok r)
    × ((b : ℕ)
        → count_if (live_sibling b 30) r.1.documents
          ≡ count_if (live_sibling b 30) (lane_tables confirming).documents)
    × ((c' : Counter) × (find_if (on_lane 5 2026 1) r.1.counters ≡ some c')
        × (c'.active_document_id ≡ some 30)
        × (c'.active_batch_id ≡ (special_request 30).batch_id))
reserve_special-takes_over_example =
    reserve_special-takes_over town_env (special_request 30) 8 lp (obras, 1) {c = lane_counter}
      town_key (lane_tables confirming) refl refl refl refl

official_number-distinct_example :
    official_number 8 (codes "IF") 2026 7 lp obras ≢ official_number 8 (codes "IF") 2026 8 lp obras
official_number-distinct_example =
    official_number-distinct 8 2026 (codes "IF") lp obras {m = 7} {n = 8} (omega arith)
