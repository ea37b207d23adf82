-- ===== src/Numbering/Reserve.antt =====
-- shared/numbering.py: the branch of the GLOBAL regime of `reserve_number`, from the search for a
-- reservation of the document to the INSERT and its handler.
use gdi_backend.Prelude.{
  ℕ, ◌+◌, ◌*◌, Bool, ◌&&◌, Option, none, some, ◌∷◌, leb, ◌==◌, if◌then◌else◌, find_if, update_if,
}
use gdi_backend.Numbering.Format.{Text, official_number}
use gdi_backend.Numbering.Tables.{
  reserved, cancelled, global, Numerator, user, OfficialDocument, Db, Constraint,
  official_documents_pkey, other_constraint, Result, ok, raised, type_error, unique_violation,
  ◌>>=◌, Env, Request, Reservation,
}
use gdi_backend.Numbering.Queries.{is_reserved, is_live, next_global_sequence, delete_own_cancelled}

-- GLOBAL_NUMBERING_TIMEOUT_MIN, in microseconds
abbrev pub global_timeout : ℕ
global_timeout = 4 * 60 * 1_000_000

abbrev pub reservation_of : OfficialDocument → Option ℕ → Reservation
reservation_of d sequence = record {
  number = d.official_number;
  department = d.department_id;
  sequence = sequence;
  reservation = d.reservation_id;
}

-- WHERE id = … AND reservation_status = 'RESERVED'
abbrev pub reserved_row : ℕ → OfficialDocument → Bool
reserved_row id d = d.id == id && is_reserved d.status

abbrev pub set_cancelled : OfficialDocument → OfficialDocument
set_cancelled d = record d { status = cancelled }

abbrev pub cancel_reserved : ℕ → Db → Db
cancel_reserved id db = record db {
  documents = update_if (reserved_row id) set_cancelled db.documents;
}

-- `elapsed_minutes >= timeout`; subtracting from NULL raises.
abbrev pub expired : Env → OfficialDocument → Result Bool
expired env d = elim d.reserved_at [
  | none ↦ raised type_error
  | some t ↦ ok (leb (t + global_timeout) env.now)
]

abbrev pub insert_document : OfficialDocument → Db → Db
insert_document d db = record db { documents = d ∷ db.documents }

-- A row of the document that already has a number in course or final.
abbrev pub live_row : ℕ → OfficialDocument → Bool
live_row id d = d.id == id && is_live d

abbrev pub raced :
    Constraint
    → Db
    → Option OfficialDocument
    → (OfficialDocument → Option ℕ)
    → Result (Reservation × Db)
raced c db (some d) sequence = ok (reservation_of d (sequence d), db)
raced c db none sequence = raised (unique_violation c)

-- The INSERT of the GLOBAL regime in its savepoint, and what the code does on a violation.
abbrev pub insert_global :
    Env → OfficialDocument → Db → Option Constraint → Result (Reservation × Db)
insert_global env d db none = ok (reservation_of d d.global_sequence, insert_document d db)
insert_global env d db (some official_documents_pkey) =
    raced official_documents_pkey db (find_if (live_row d.id) db.documents) (λ e. e.global_sequence)
insert_global env d db (some (other_constraint c)) = raised (unique_violation (other_constraint c))

abbrev pub global_document : Env → Request → Numerator → Text → Text × ℕ → ℕ → OfficialDocument
global_document env q numerator city dept n = record {
  id = q.document_id;
  official_number = official_number 8 q.type_acronym q.year n city dept.0;
  year = q.year;
  department_id = dept.1;
  numerator = numerator;
  document_type_id = q.document_type_id;
  global_sequence = some n;
  special_number = none;
  regime = global;
  status = reserved;
  reserved_at = some env.now;
  reservation_id = some env.ticket;
  batch_id = none;
  payload = q.payload;
}

-- From the sequence to the INSERT: the own cancelled row is deleted in between.
unfoldable pub take_global : Env → Request → ℕ → Text → Text × ℕ → Db → Result (Reservation × Db)
take_global env q user_id city dept db =
    let (n, db₁) = next_global_sequence env q.year db in
    let db₂ = delete_own_cancelled q.document_id db₁ in
    let d = global_document env q (user user_id) city dept n in
    insert_global env d db₂ (env.violated d db₂.documents)

abbrev pub retry_global :
    Env → Request → ℕ → Text → Text × ℕ → Db → Option OfficialDocument → Result (Reservation × Db)
retry_global env q user_id city dept db none = take_global env q user_id city dept db
retry_global env q user_id city dept db (some e) = do
  late ← expired env e
  if late
      then take_global env q user_id city dept (cancel_reserved q.document_id db)
      else ok (reservation_of e e.global_sequence, db)

-- `reserve_number`, the branch of the GLOBAL regime, under the advisory lock.
unfoldable pub reserve_global : Env → Request → ℕ → Text → Text × ℕ → Db → Result (Reservation × Db)
reserve_global env q user_id city dept db =
    retry_global env q user_id city dept db (find_if (reserved_row q.document_id) db.documents)
