-- ===== src/Numbering/Permanent.antt =====
-- A confirmed number is final: no function of shared/numbering.py changes or deletes the row of a
-- confirmed document, as long as no call of `cancel_number` lists CONFIRMED among its states.
pub mod Calls
use gdi_backend.Prelude.{
  ℕ, ◌+◌, ◌≤◌, ◌≡◌, refl, Bool, true, false, ◌&&◌, not, Bool-cases, Option-cases, Option, none,
  some, inl, inr, List, [], ◌∷◌, arith, if◌then◌else◌, count_if, keep_if, find_if, update_if,
  any_of, ltb, ◌==◌,
}
use gdi_backend.Numbering.Format.{Text}
use gdi_backend.Numbering.Tables.{
  ReservationStatus, reserved, confirming, confirmed, cancelled, Numerator, user, citizen,
  OfficialDocument, Counter, Db, Constraint, official_documents_pkey, other_constraint, Result, ok,
  raised, committed, committed-bind, Env, Request, Reservation,
}
use gdi_backend.Numbering.Queries.{
  is_cancelled, is_reserved, is_confirming, oldest, recyclable, next_global_sequence, drop_recycled,
  delete_own_cancelled, get_city_acronym, get_user_department, get_tad_department,
}
use gdi_backend.Numbering.Reserve.{
  reserved_row, set_cancelled, cancel_reserved, expired, live_row, insert_document, raced,
  insert_global, global_document, take_global, retry_global, reserve_global,
}
use gdi_backend.Numbering.Special.{
  is_special, special_recyclable, upsert_counter, next_special_number, special_document,
  insert_special, take_special, active_reservation, enter_lane, lane_shared, reserve_special,
}
use gdi_backend.Numbering.Entry.{
  special_numbering, insert_citizen, take_citizen, retry_citizen, reserve_citizen,
  confirmed_document, insert_confirmed, confirmed_raced, take_confirmed, reserve_number,
  reserve_citizen_number, generate_confirmed_number, generate_official_number,
  generate_citizen_official_number,
}
use gdi_backend.Numbering.Lifecycle.{
  with_status, ticket_row, cancel_row, in_states, has_live_sibling, release_special_lane,
  release_if_special, confirm_number, finalize_number, cancel_found, cancel_number,
}
use gdi_backend.Numbering.Lanes.{upsert_counter_lem}
use gdi_backend.Numbering.Runs.{
  Call, reserve, reserve_for_citizen, generate, generate_for_citizen, confirm, finalize, cancel,
  apply, run,
}

abbrev pub is_confirmed : ReservationStatus → Bool
is_confirmed confirmed = true
is_confirmed _ = false

-- A confirmed row that passes a test.
abbrev pub final : (OfficialDocument → Bool) → OfficialDocument → Bool
final q d = is_confirmed d.status && q d

-- No confirmed row is lost or altered: by no test on the columns are there fewer.
pub record KeepsConfirmed (db db' : Db) : Type 0 where
  pub rows :
      (q : OfficialDocument → Bool)
      → count_if (final q) db.documents ≤ count_if (final q) db'.documents

pub KeepsConfirmed-refl : (db : Db) → KeepsConfirmed db db
KeepsConfirmed-refl db = record { rows = λ q. omega arith }

pub KeepsConfirmed-trans :
    {a b c : Db} → KeepsConfirmed a b → KeepsConfirmed b c → KeepsConfirmed a c
KeepsConfirmed-trans s t = record { rows = λ q. omega (arith, s.rows q, t.rows q) }

-- A deletion of cancelled rows.
count-delete :
    (id : ℕ) (q : OfficialDocument → Bool) (ds : List OfficialDocument)
    → count_if (final q) (keep_if (λ d. not (d.id == id && is_cancelled d.status)) ds)
      ≡ count_if (final q) ds
count-delete id q [] = refl
count-delete id q (d ∷ ds) = ground (arith, count-delete id q ds)

-- An UPDATE whose WHERE passes no confirmed row.
pub count-update-other :
    (p q : OfficialDocument → Bool) (f : OfficialDocument → OfficialDocument)
    (ds : List OfficialDocument)
    → ((d : OfficialDocument) → p d ≡ true → is_confirmed d.status ≡ false)
    → count_if (final q) ds ≤ count_if (final q) (update_if p f ds)
count-update-other p q f [] other = omega arith
count-update-other p q f (d ∷ ds) other = ground (arith, other d, count-update-other p q f ds other)

pub next_global-KeepsConfirmed :
    (env : Env) (year : ℕ) (db : Db) → KeepsConfirmed db (next_global_sequence env year db).1
unfolding next_global_sequence
next_global-KeepsConfirmed env year db =
    elim (Option-cases (oldest (recyclable env year) db.documents)) [
      | inl empty ↦ rw empty (KeepsConfirmed-refl db)
      | inr (r, found) ↦
          rw found (record { rows = λ q. omega (arith, count-delete r.id q db.documents) })
    ]

pub next_special-KeepsConfirmed :
    (env : Env) (t dp y : ℕ) (c : Counter) (db : Db)
    → KeepsConfirmed db (next_special_number env t dp y c db).1
unfolding next_special_number
next_special-KeepsConfirmed env t dp y c db =
    elim (Option-cases (oldest (special_recyclable env t dp y) db.documents)) [
      | inl empty ↦ rw empty (record { rows = λ q. omega arith })
      | inr (r, found) ↦
          rw found (record { rows = λ q. omega (arith, count-delete r.id q db.documents) })
    ]

pub delete_own-KeepsConfirmed : (id : ℕ) (db : Db) → KeepsConfirmed db (delete_own_cancelled id db)
unfolding delete_own_cancelled
delete_own-KeepsConfirmed id db = record {
  rows = λ q. omega (arith, count-delete id q db.documents);
}

pub cancel_reserved-KeepsConfirmed : (id : ℕ) (db : Db) → KeepsConfirmed db (cancel_reserved id db)
cancel_reserved-KeepsConfirmed id db = record {
  rows = λ q.
      count-update-other (reserved_row id) q set_cancelled db.documents (λ d. reserved_other id d);
}
  where
    reserved_other :
        (id : ℕ) (d : OfficialDocument) → reserved_row id d ≡ true → is_confirmed d.status ≡ false
    reserved_other id d h = ground arith
