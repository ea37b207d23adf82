-- ===== src/Numbering/Entry.antt =====
-- shared/numbering.py: the functions that callers use to obtain a number, from the lookups of the
-- tenant to the regime's branch.
use gdi_backend.Prelude.{ℕ, Bool, Option, none, some, ◌==◌, if◌then◌else◌, find_if}
use gdi_backend.Numbering.Format.{Text}
use gdi_backend.Numbering.Tables.{
  confirmed, Numerator, user, citizen, OfficialDocument, DocumentType, Db, Constraint,
  official_documents_pkey, other_constraint, Result, ok, raised, document_type_missing,
  special_not_supported, unique_violation, ◌>>=◌, Env, Request, Reservation,
}
use gdi_backend.Numbering.Queries.{
  get_city_acronym, get_user_department, get_tad_department, next_global_sequence,
}
use gdi_backend.Numbering.Reserve.{
  reservation_of, reserved_row, cancel_reserved, expired, insert_document, global_document,
  reserve_global,
}
use gdi_backend.Numbering.Special.{reserve_special}

abbrev pub type_row : Option DocumentType → Result Bool
type_row none = raised document_type_missing
type_row (some t) = ok t.special_numbering

unfoldable pub special_numbering : Db → ℕ → Result Bool
special_numbering db type_id = type_row (find_if (λ t. t.id == type_id) db.document_types)

-- `reserve_number`
unfoldable pub reserve_number : Env → Request → ℕ → Db → Result (Reservation × Db)
reserve_number env q user_id db = do
  city ← get_city_acronym db q.schema_name
  dept ← get_user_department env db user_id
  is_special ← special_numbering db q.document_type_id
  if is_special
      then reserve_special env q user_id city dept db
      else reserve_global env q user_id city dept db

abbrev pub insert_citizen : OfficialDocument → Db → Option Constraint → Result (Reservation × Db)
insert_citizen d db none = ok (reservation_of d d.global_sequence, insert_document d db)
insert_citizen d db (some c) = raised (unique_violation c)

-- No handler stands around this INSERT, and the own cancelled row is not deleted before it.
unfoldable pub take_citizen : Env → Request → ℕ → Text → Text × ℕ → Db → Result (Reservation × Db)
take_citizen env q citizen_id city dept db =
    let (n, db₁) = next_global_sequence env q.year db in
    let d = global_document env q (citizen citizen_id) city dept n in
    insert_citizen d db₁ (env.violated d db₁.documents)

abbrev pub retry_citizen :
    Env → Request → ℕ → Text → Text × ℕ → Db → Option OfficialDocument → Result (Reservation × Db)
retry_citizen env q citizen_id city dept db none = take_citizen env q citizen_id city dept db
retry_citizen env q citizen_id city dept db (some e) = do
  late ← expired env e
  if late
      then take_citizen env q citizen_id city dept (cancel_reserved q.document_id db)
      else ok (reservation_of e e.global_sequence, db)

unfoldable pub reserve_citizen :
    Env → Request → ℕ → Text → Text × ℕ → Db → Result (Reservation × Db)
reserve_citizen env q citizen_id city dept db =
    retry_citizen env q citizen_id city dept db (find_if (reserved_row q.document_id) db.documents)

-- `reserve_citizen_number`
unfoldable pub reserve_citizen_number : Env → Request → ℕ → Db → Result (Reservation × Db)
reserve_citizen_number env q citizen_id db = do
  city ← get_city_acronym db q.schema_name
  dept ← get_tad_department db
  is_special ← special_numbering db q.document_type_id
  if is_special then raised special_not_supported else reserve_citizen env q citizen_id city dept db

-- A row inserted as CONFIRMED: it was never reserved, and has no ticket.
abbrev pub confirmed_document : Env → Request → Numerator → Text → Text × ℕ → ℕ → OfficialDocument
confirmed_document env q numerator city dept n =
    record (global_document env q numerator city dept n) {
      status = confirmed;
      reserved_at = none;
      reservation_id = none;
    }

abbrev pub confirmed_raced : Db → Option OfficialDocument → Result (Reservation × Db)
confirmed_raced db (some d) = ok (reservation_of d d.global_sequence, db)
confirmed_raced db none = raised (unique_violation official_documents_pkey)

-- On the primary key the row with that id is returned, whatever its status.
abbrev pub insert_confirmed : OfficialDocument → Db → Option Constraint → Result (Reservation × Db)
insert_confirmed d db none = ok (reservation_of d d.global_sequence, insert_document d db)
insert_confirmed d db (some official_documents_pkey) =
    confirmed_raced db (find_if (λ e. e.id == d.id) db.documents)
insert_confirmed d db (some (other_constraint c)) = raised (unique_violation (other_constraint c))

unfoldable pub take_confirmed :
    Env → Request → Numerator → Text → Text × ℕ → Db → Result (Reservation × Db)
take_confirmed env q numerator city dept db =
    let (n, db₁) = next_global_sequence env q.year db in
    let d = confirmed_document env q numerator city dept n in
    insert_confirmed d db₁ (env.violated d db₁.documents)

-- `_generate_confirmed_number`; the callers take the first three parts of the result.
unfoldable pub generate_confirmed_number :
    Env → Request → Numerator → (Db → Result (Text × ℕ)) → Db → Result (Reservation × Db)
generate_confirmed_number env q numerator resolve_department db = do
  city ← get_city_acronym db q.schema_name
  dept ← resolve_department db
  take_confirmed env q numerator city dept db

unfoldable pub generate_official_number : Env → Request → ℕ → Db → Result (Reservation × Db)
unfolding generate_confirmed_number
generate_official_number env q user_id db =
    generate_confirmed_number env q (user user_id) (λ t. get_user_department env t user_id) db

unfoldable pub generate_citizen_official_number : Env → Request → ℕ → Db → Result (Reservation × Db)
unfolding generate_confirmed_number
generate_citizen_official_number env q citizen_id db =
    generate_confirmed_number env q (citizen citizen_id) get_tad_department db
