-- ===== src/Numbering/Retry.antt =====
-- Retrying and recycling in the GLOBAL regime of shared/numbering.py: a repeated reservation is the
-- same reservation, and a cancelled number is the next one given.
use gdi_backend.Prelude.{
  ℕ, ◌+◌, ◌<◌, ◌≡◌, refl, Bool, true, false, none, some, List, [], ◌∷◌, arith, count_if, find_if,
  leb, ◌==◌,
}
use gdi_backend.Numbering.Format.{Text}
use gdi_backend.Numbering.Tables.{
  reserved, user, OfficialDocument, Db, official_documents_pkey, ok, Env, Request, Reservation,
}
use gdi_backend.Numbering.Queries.{next_global_sequence, delete_own_cancelled}
use gdi_backend.Numbering.Reserve.{
  global_timeout, reservation_of, reserved_row, insert_document, global_document, take_global,
  reserve_global,
}
use gdi_backend.Numbering.Sequence.{next_global_sequence-count-le, delete_own_cancelled-count-le}

abbrev pub has_id : ℕ → OfficialDocument → Bool
has_id id d = d.id == id

-- The database's constraints: a row with an id of its own is admitted, and a second row with an id
-- violates the primary key.
pub record HasPrimaryKey (env : Env) : Type 0 where
  pub admits :
      (d : OfficialDocument) (ds : List OfficialDocument)
      → count_if (has_id d.id) ds ≡ 0
      → env.violated d ds ≡ none
  pub refuses :
      (d : OfficialDocument) (ds : List OfficialDocument)
      → 0 < count_if (has_id d.id) ds
      → env.violated d ds ≡ some official_documents_pkey

no_reserved_row :
    (id : ℕ) (ds : List OfficialDocument)
    → count_if (has_id id) ds ≡ 0
    → find_if (reserved_row id) ds ≡ none
no_reserved_row id [] h = refl
no_reserved_row id (d ∷ ds) h = ground (arith, no_reserved_row id ds)

module _ (env : Env) (key : HasPrimaryKey env) (q : Request) (user_id : ℕ) (city : Text)
    (dept : Text × ℕ) (db : Db) where
  abbrev pub taken : ℕ × Db
  taken = next_global_sequence env q.year db

  abbrev pub new_row : OfficialDocument
  new_row = global_document env q (user user_id) city dept taken.0

  abbrev pub room_made : Db
  room_made = delete_own_cancelled q.document_id taken.1

  -- The reservation of a document that has no row yet.
  abbrev pub fresh_reservation : Reservation × Db
  fresh_reservation =
      (reservation_of new_row new_row.global_sequence, insert_document new_row room_made)

  no_row_left :
      count_if (has_id q.document_id) db.documents ≡ 0
      → count_if (has_id q.document_id) room_made.documents ≡ 0
  no_row_left h = omega (
    arith,
    next_global_sequence-count-le (has_id q.document_id) env q.year db,
    delete_own_cancelled-count-le (has_id q.document_id) q.document_id taken.1,
  )

  pub reserve_global-fresh :
      count_if (has_id q.document_id) db.documents ≡ 0
      → reserve_global env q user_id city dept db ≡ ok fresh_reservation
  unfolding reserve_global take_global
  reserve_global-fresh h = rw (
    no_reserved_row q.document_id db.documents h,
    key.admits new_row room_made.documents (no_row_left h),
  )

reserved_row_self :
    (id : ℕ) (d : OfficialDocument) → d.id ≡ id → d.status ≡ reserved → reserved_row id d ≡ true
reserved_row_self id d same st = ground arith

not_late : (t now : ℕ) → now < t + global_timeout → leb (t + global_timeout) now ≡ false
not_late t now h = ground arith

-- A document whose first row is RESERVED since less than four minutes gets that reservation.
reserve_global-again :
    (env : Env) (q : Request) (user_id : ℕ) (city : Text) (dept : Text × ℕ) (db : Db)
    (d : OfficialDocument) {t : ℕ}
    → d.id ≡ q.document_id
    → d.status ≡ reserved
    → d.reserved_at ≡ some t
    → env.now < t + global_timeout
    → reserve_global env q user_id city dept (insert_document d db)
      ≡ ok (reservation_of d d.global_sequence, insert_document d db)
unfolding reserve_global
reserve_global-again env q user_id city dept db d {t} same st since soon =
    rw (reserved_row_self q.document_id d same st, since, not_late t env.now soon)

-- Reserving a number for a document that has no row succeeds, with the ticket drawn; reserving
-- again, less than four minutes later, whatever else the second run finds around it, returns the
-- same number and ticket and leaves the tables as they are.
pub reserve_global-retry :
    (env env' : Env) (q : Request) (user_id : ℕ) (city : Text) (dept : Text × ℕ) (db : Db)
    → HasPrimaryKey env
    → count_if (has_id q.document_id) db.documents ≡ 0
    → env'.now < env.now + global_timeout
    → (r : Reservation × Db) × (reserve_global env q user_id city dept db ≡ ok r)
      × (r.0.reservation ≡ some env.ticket)
      × (reserve_global env' q user_id city dept r.1 ≡ ok r)
reserve_global-retry env env' q user_id city dept db key absent soon = (
  fresh_reservation env key q user_id city dept db,
  reserve_global-fresh env key q user_id city dept db absent,
  refl,
  reserve_global-again env' q user_id city dept (room_made env key q user_id city dept db)
      (new_row env key q user_id city dept db) refl refl refl soon,
)
