-- ===== src/Numbering/Queries.antt =====
-- The SQL statements of shared/numbering.py that several functions share, on lists of rows.
use gdi_backend.Prelude.{
  ℕ, ◌+◌, Bool, true, false, ◌&&◌, not, Option, none, some, List, [], ◌∷◌, max, leb, ◌==◌,
  if◌then◌else◌, find_if, any_of, keep_if,
}
use gdi_backend.Prelude.Texts.{Text, text_eq}
use gdi_backend.Numbering.Tables.{
  ReservationStatus, reserved, confirming, cancelled, Regime, global, special, OfficialDocument,
  Municipality, Department, User, Db, Result, ok, raised, city_acronym_missing, user_missing,
  department_fallback_missing, tad_department_missing, Env,
}

-- A text column that Python takes as true: neither NULL nor empty.
abbrev pub truthy_text : Option Text → Option Text
truthy_text none = none
truthy_text (some []) = none
truthy_text (some (c ∷ cs)) = some (c ∷ cs)

abbrev pub is_reserved : ReservationStatus → Bool
is_reserved reserved = true
is_reserved _ = false

abbrev pub is_confirming : ReservationStatus → Bool
is_confirming confirming = true
is_confirming _ = false

abbrev pub is_cancelled : ReservationStatus → Bool
is_cancelled cancelled = true
is_cancelled _ = false

abbrev pub is_global : Regime → Bool
is_global global = true
is_global special = false

abbrev pub has_sequence : OfficialDocument → Bool
has_sequence d = elim d.global_sequence [ none ↦ false | some n ↦ true ]

-- reservation_status IN ('RESERVED','CONFIRMING','CONFIRMED')
abbrev pub is_live : OfficialDocument → Bool
is_live d = not (is_cancelled d.status)

abbrev city_row : Option Municipality → Result Text
city_row none = raised city_acronym_missing
city_row (some m) = ok m.acronym

unfoldable pub get_city_acronym : Db → ℕ → Result Text
get_city_acronym db schema = city_row (find_if (λ m. m.schema_name == schema) db.municipalities)

-- ORDER BY d.acronym, d.id LIMIT 1
first_department : (Department → Department → Bool) → List Department → Option Department
first_department before [] = none
first_department before (d ∷ ds) = elim (first_department before ds) [
  | none ↦ if d.is_active then some d else none
  | some e ↦ if d.is_active && before d e then some d else some e
]

abbrev fallback_department : Option Department → Result (Text × ℕ)
fallback_department none = raised department_fallback_missing
fallback_department (some d) = elim (truthy_text d.acronym) [
  | none ↦ raised department_fallback_missing
  | some acronym ↦ ok (acronym, d.id)
]

-- users LEFT JOIN sectors LEFT JOIN departments
abbrev department_of : Db → User → Option Department
department_of db u = elim u.sector_id [
  | none ↦ none
  | some sid ↦ elim (find_if (λ s. s.id == sid) db.sectors) [
    | none ↦ none
    | some s ↦ elim s.department_id [
      | none ↦ none
      | some did ↦ find_if (λ d. d.id == did) db.departments
    ]
  ]
]

abbrev own_department : Option Department → Option (Text × ℕ)
own_department none = none
own_department (some d) = elim (truthy_text d.acronym) [
  | none ↦ none
  | some acronym ↦ some (acronym, d.id)
]

abbrev user_row : Env → Db → Option User → Result (Text × ℕ)
user_row env db none = raised user_missing
user_row env db (some u) = elim (own_department (department_of db u)) [
  | some found ↦ ok found
  | none ↦ fallback_department (first_department env.sorts_before db.departments)
]

unfoldable pub get_user_department : Env → Db → ℕ → Result (Text × ℕ)
unfolding first_department
get_user_department env db user_id = user_row env db (find_if (λ u. u.id == user_id) db.users)

-- 'TAD'
abbrev tad_acronym : Text
tad_acronym = b'T' ∷ b'A' ∷ b'D' ∷ []

abbrev is_tad : Department → Bool
is_tad d = d.is_system && elim d.acronym [ none ↦ false | some a ↦ text_eq a tad_acronym ]

abbrev tad_row : Option Department → Result (Text × ℕ)
tad_row none = raised tad_department_missing
tad_row (some d) = ok (tad_acronym, d.id)

unfoldable pub get_tad_department : Db → Result (Text × ℕ)
get_tad_department db = tad_row (find_if is_tad db.departments)

-- ORDER BY reserved_at ASC puts NULL last; the first of equals is taken.
abbrev pub reserved_before : Option ℕ → Option ℕ → Bool
reserved_before none none = true
reserved_before none (some b) = false
reserved_before (some a) none = true
reserved_before (some a) (some b) = leb a b

abbrev earlier : OfficialDocument → Option OfficialDocument → OfficialDocument
earlier d none = d
earlier d (some e) = if reserved_before d.reserved_at e.reserved_at then d else e

-- SELECT … WHERE p ORDER BY reserved_at ASC LIMIT 1
unfoldable pub oldest : (OfficialDocument → Bool) → List OfficialDocument → Option OfficialDocument
oldest p [] = none
oldest p (d ∷ ds) = let best = oldest p ds in if p d then some (earlier d best) else best

-- A nullable number; 0 stands for NULL, in a maximum and where the query excludes NULL.
abbrev pub column : Option ℕ → ℕ
column none = 0
column (some n) = n

-- COALESCE(MAX(global_sequence), 0), over the rows of a year that are not cancelled
abbrev pub live_sequence : ℕ → OfficialDocument → ℕ
live_sequence year d = if d.year == year && is_live d then column d.global_sequence else 0

unfoldable pub max_sequence : ℕ → List OfficialDocument → ℕ
max_sequence year [] = 0
max_sequence year (d ∷ ds) = max (live_sequence year d) (max_sequence year ds)

-- DELETE FROM official_documents WHERE id = … AND reservation_status = 'CANCELLED'
abbrev pub delete_cancelled : ℕ → List OfficialDocument → List OfficialDocument
delete_cancelled id = keep_if (λ d. not (d.id == id && is_cancelled d.status))

abbrev pub delete_chunks : ℕ → List ℕ → List ℕ
delete_chunks id = keep_if (λ c. not (c == id))

abbrev pub recyclable : Env → ℕ → OfficialDocument → Bool
recyclable env year d =
    d.year == year
    && is_cancelled d.status
    && is_global d.regime
    && has_sequence d
    && not (env.locked d.id)

-- The recycled row, chunks first, then the row itself.
abbrev pub drop_recycled : OfficialDocument → Db → Db
drop_recycled r db = record db {
  chunks = delete_chunks r.id db.chunks;
  documents = delete_cancelled r.id db.documents;
}

abbrev pub take_recycled : ℕ → Db → Option OfficialDocument → ℕ × Db
take_recycled year db (some r) = (column r.global_sequence, drop_recycled r db)
take_recycled year db none = (max_sequence year db.documents + 1, db)

-- `_next_global_sequence`
unfoldable pub next_global_sequence : Env → ℕ → Db → ℕ × Db
next_global_sequence env year db = take_recycled year db (oldest (recyclable env year) db.documents)

-- The own row of a cancelled attempt, with its chunks.
unfoldable pub delete_own_cancelled : ℕ → Db → Db
delete_own_cancelled id db =
    let exists = any_of (λ d. d.id == id && is_cancelled d.status) db.documents in
    record db {
      chunks = if exists then delete_chunks id db.chunks else db.chunks;
      documents = delete_cancelled id db.documents;
    }
