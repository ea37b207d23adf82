-- ===== src/Numbering/Special.antt =====
-- shared/numbering.py: the SPECIAL regime of `reserve_number`, one numbering lane for each document
-- type, department and year.
use gdi_backend.Prelude.{
  ℕ, ◌+◌, max, Bool, true, false, ◌&&◌, not, Option, none, some, ◌∷◌, ◌==◌, eq_some, if◌then◌else◌,
  find_if, update_if,
}
use gdi_backend.Numbering.Format.{Text, official_number}
use gdi_backend.Numbering.Tables.{
  reserved, special, Regime, global, Numerator, user, citizen, OfficialDocument, Counter, Db,
  Constraint, Result, ok, raised, special_lane_busy, unique_violation, Env, Request, Reservation,
}
use gdi_backend.Numbering.Queries.{
  is_cancelled, oldest, column, drop_recycled, delete_own_cancelled,
}
use gdi_backend.Numbering.Reserve.{reservation_of, reserved_row, live_row}

abbrev pub is_special : Regime → Bool
is_special special = true
is_special global = false

abbrev pub on_lane : ℕ → ℕ → ℕ → Counter → Bool
on_lane type_id year dept c =
    c.document_type_id == type_id && c.year == year && c.department_id == dept

abbrev pub new_counter : ℕ → ℕ → ℕ → Counter
new_counter type_id year dept = record {
  document_type_id = type_id;
  year = year;
  department_id = dept;
  last_number = 0;
  active_document_id = none;
  active_batch_id = none;
}

-- INSERT … ON CONFLICT DO UPDATE … RETURNING: the lane's counter, made if it is not there.
abbrev pub counter_row : ℕ → ℕ → ℕ → Db → Option Counter → Counter × Db
counter_row type_id year dept db (some c) = (c, db)
counter_row type_id year dept db none =
    let c = new_counter type_id year dept in (c, record db { counters = c ∷ db.counters })

unfoldable pub upsert_counter : ℕ → ℕ → ℕ → Db → Counter × Db
upsert_counter type_id year dept db =
    counter_row type_id year dept db (find_if (on_lane type_id year dept) db.counters)

abbrev pub same_some : Option ℕ → Option ℕ → Bool
same_some none b = false
same_some (some a) none = false
same_some (some a) (some b) = a == b

-- `_misma_tanda_y_mismo_usuario`
unfoldable pub same_batch_and_user : Option ℕ → Option ℕ → Option ℕ → ℕ → Bool
same_batch_and_user counter_batch batch holder user_id =
    same_some counter_batch batch && eq_some holder user_id

abbrev pub numerator_user : Numerator → Option ℕ
numerator_user (user u) = some u
numerator_user (citizen c) = none

abbrev pub special_recyclable : Env → ℕ → ℕ → ℕ → OfficialDocument → Bool
special_recyclable env type_id dept year d =
    d.document_type_id == type_id
    && d.department_id == dept
    && d.year == year
    && is_cancelled d.status
    && is_special d.regime
    && not (env.locked d.id)

-- The recycled number, or the next of the counter.
-- Every row that take_special inserts has its special_number; for one without, where the code would
-- raise when it prints it, the number is 0 here.
abbrev pub take_special_number : Counter → Db → Option OfficialDocument → ℕ × Db
take_special_number c db (some r) = (column r.special_number, drop_recycled r db)
take_special_number c db none = (c.last_number + 1, db)

unfoldable pub next_special_number : Env → ℕ → ℕ → ℕ → Counter → Db → ℕ × Db
next_special_number env type_id dept year c db =
    take_special_number c db (oldest (special_recyclable env type_id dept year) db.documents)

abbrev pub special_document : Env → Request → ℕ → Text → Text × ℕ → ℕ → OfficialDocument
special_document env q user_id city dept n = record {
  id = q.document_id;
  official_number = official_number 4 q.type_acronym q.year n city dept.0;
  year = q.year;
  department_id = dept.1;
  numerator = user user_id;
  document_type_id = q.document_type_id;
  global_sequence = none;
  special_number = some n;
  regime = special;
  status = reserved;
  reserved_at = some env.now;
  reservation_id = some env.ticket;
  batch_id = q.batch_id;
  payload = q.payload;
}

-- UPDATE document_number_counters: the lane is now held by this document and its batch.
abbrev pub hold_lane : Request → ℕ → Counter → Counter
hold_lane q n c = record c {
  last_number = max c.last_number n;
  active_document_id = some q.document_id;
  active_batch_id = q.batch_id;
}

abbrev pub special_raced : Constraint → Db → Option OfficialDocument → Result (Reservation × Db)
special_raced c db (some d) = ok (reservation_of d d.special_number, db)
special_raced c db none = raised (unique_violation c)

-- Any violated constraint leads to the row of a parallel request, or is raised.
abbrev pub insert_special :
    Request → ℕ → ℕ → OfficialDocument → Db → Option Constraint → Result (Reservation × Db)
insert_special q dept n d db (some c) =
    special_raced c db (find_if (live_row q.document_id) db.documents)
insert_special q dept n d db none = ok (
  reservation_of d d.special_number,
  record db {
    documents = d ∷ db.documents;
    counters = update_if (on_lane q.document_type_id q.year dept) (hold_lane q n) db.counters;
  },
)

unfoldable pub take_special :
    Env → Request → ℕ → Text → Text × ℕ → Counter → Db → Result (Reservation × Db)
take_special env q user_id city dept c db =
    let (n, db₁) = next_special_number env q.document_type_id dept.1 q.year c db in
    let db₂ = delete_own_cancelled q.document_id db₁ in
    let d = special_document env q user_id city dept n in
    insert_special q dept.1 n d db₂ (env.violated d db₂.documents)

-- The reservation that the counter points at, if it is still RESERVED.
abbrev pub active_reservation : Counter → Db → Option OfficialDocument
active_reservation c db = elim c.active_document_id [
  | none ↦ none
  | some a ↦ find_if (reserved_row a) db.documents
]

abbrev pub retried : Db → Option OfficialDocument → OfficialDocument → Result (Reservation × Db)
retried db (some e) holder = ok (reservation_of e e.special_number, db)
retried db none holder = ok (reservation_of holder holder.special_number, db)

abbrev pub lane_shared : Counter → Request → ℕ → OfficialDocument → Bool
lane_shared c q user_id holder =
    same_batch_and_user c.active_batch_id q.batch_id (numerator_user holder.numerator) user_id

abbrev pub enter_lane :
    Env
    → Request
    → ℕ
    → Text
    → Text × ℕ
    → Counter
    → Db
    → Option OfficialDocument
    → Result (Reservation × Db)
enter_lane env q user_id city dept c db none = take_special env q user_id city dept c db
enter_lane env q user_id city dept c db (some holder) =
    if holder.id == q.document_id
    then retried db (find_if (λ d. d.id == q.document_id) db.documents) holder
    else if lane_shared c q user_id holder
    then take_special env q user_id city dept c db
    else raised special_lane_busy

-- `reserve_number`, the branch of the SPECIAL regime.
unfoldable pub reserve_special :
    Env → Request → ℕ → Text → Text × ℕ → Db → Result (Reservation × Db)
reserve_special env q user_id city dept db =
    let (c, db₁) = upsert_counter q.document_type_id q.year dept.1 db in
    enter_lane env q user_id city dept c db₁ (active_reservation c db₁)
