-- ===== src/Numbering/Recycle.antt =====
-- The recycling of GLOBAL numbers (shared/numbering.py): what becomes of the number of a cancelled
-- reservation when there is no other to be recycled.
use gdi_backend.Prelude.{
  ℕ, ◌≡◌, ◌≢◌, refl, ap, Bool, true, false, none, some, List, [], ◌∷◌, arith, count_if, update_if,
  ==_refl,
}
use gdi_backend.Numbering.Format.{Text}
use gdi_backend.Numbering.Tables.{
  reserved, cancelled, global, OfficialDocument, Db, ok, Env, Request, Reservation,
}
use gdi_backend.Numbering.Queries.{oldest, recyclable, next_global_sequence}
use gdi_backend.Numbering.Reserve.{insert_document, reserve_global}
use gdi_backend.Numbering.Lifecycle.{with_status, cancel_row, cancel_number}
use gdi_backend.Numbering.Sequence.{next_global_sequence-count-le, delete_own_cancelled-count-le}
use gdi_backend.Numbering.Retry.{
  has_id, HasPrimaryKey, new_row, room_made, fresh_reservation, reserve_global-fresh,
}

oldest-only :
    (p : OfficialDocument → Bool) (d : OfficialDocument) (ds : List OfficialDocument)
    → p d ≡ true
    → count_if p ds ≡ 0
    → oldest p (d ∷ ds) ≡ some d
unfolding oldest
oldest-only p d ds h z = rw (h, oldest-empty p ds z)
  where
    oldest-empty :
        (p : OfficialDocument → Bool) (ds : List OfficialDocument)
        → count_if p ds ≡ 0
        → oldest p ds ≡ none
    oldest-empty p [] z = refl
    oldest-empty p (d ∷ ds) z = ground (arith, oldest-empty p ds)

others_stay :
    (id : ℕ) (ds : List OfficialDocument)
    → count_if (has_id id) ds ≡ 0
    → update_if (cancel_row (reserved ∷ []) id none) (with_status cancelled) ds ≡ ds
others_stay id [] z = refl
others_stay id (d ∷ ds) z = ground (arith, others_stay id ds)

-- The tables with the reservation in front cancelled.
abbrev pub with_cancelled : OfficialDocument → Db → Db
with_cancelled d db = record db { documents = with_status cancelled d ∷ db.documents }

-- Cancelling the reservation that was just made.
cancel_new :
    (d : OfficialDocument) (db : Db) (reason : Text) (alert : Bool)
    → d.status ≡ reserved
    → d.regime ≡ global
    → count_if (has_id d.id) db.documents ≡ 0
    → (cancel_number d.id reason none alert (reserved ∷ []) (insert_document d db)).1
      ≡ with_cancelled d db
unfolding cancel_number
cancel_new d db reason alert s g z =
    rw (==_refl d.id, ==_refl d.id, s, g, others_stay d.id db.documents z)

cancelled-recyclable :
    (env : Env) (year : ℕ) (d : OfficialDocument) {n : ℕ}
    → d.year ≡ year
    → d.regime ≡ global
    → d.global_sequence ≡ some n
    → env.locked d.id ≡ false
    → recyclable env year (with_status cancelled d) ≡ true
cancelled-recyclable env year d y g n l = ground (arith, ==_refl year)

next_after_cancel :
    (env : Env) (year : ℕ) (d : OfficialDocument) (db : Db) {n : ℕ}
    → d.year ≡ year
    → d.regime ≡ global
    → d.global_sequence ≡ some n
    → env.locked d.id ≡ false
    → count_if (recyclable env year) db.documents ≡ 0
    → (next_global_sequence env year (with_cancelled d db)).0 ≡ n
unfolding next_global_sequence
next_after_cancel env year d db {n} y g s l z =
    rw
      (oldest-only (recyclable env year) (with_status cancelled d) db.documents
        (cancelled-recyclable env year d y g s l) z)
      (rw s)

module _ (env env' : Env) (key : HasPrimaryKey env) (key' : HasPrimaryKey env') (q q' : Request)
    (user_id user_id' : ℕ) (city : Text) (dept dept' : Text × ℕ) (db : Db) where
  abbrev first_row : OfficialDocument
  first_row = new_row env key q user_id city dept db

  abbrev first_tables : Db
  first_tables = room_made env key q user_id city dept db

  still :
      (p : OfficialDocument → Bool)
      → count_if p db.documents ≡ 0
      → count_if p first_tables.documents ≡ 0
  still p z = omega (
    arith,
    z,
    next_global_sequence-count-le p env q.year db,
    delete_own_cancelled-count-le p q.document_id (next_global_sequence env q.year db).1,
  )

  absent_after :
      q.document_id ≢ q'.document_id
      → count_if (has_id q'.document_id) db.documents ≡ 0
      → count_if (has_id q'.document_id) (with_cancelled first_row first_tables).documents ≡ 0
  absent_after ne z = ground (arith, still (has_id q'.document_id) z)

  -- Where neither of two documents has a row, no cancelled row of the year is to be recycled and no
  -- other transaction locks the row of the first: after the reservation of the first is cancelled, the
  -- other one of the same year, numbered by another call, is given the same number.
  pub recycled-number :
      (reason : Text) (alert : Bool)
      → q'.year ≡ q.year
      → q.document_id ≢ q'.document_id
      → count_if (has_id q.document_id) db.documents ≡ 0
      → count_if (has_id q'.document_id) db.documents ≡ 0
      → count_if (recyclable env' q.year) db.documents ≡ 0
      → env'.locked q.document_id ≡ false
      → (r : Reservation × Db) × (reserve_global env q user_id city dept db ≡ ok r)
        × (r' : Reservation × Db) × (reserve_global env' q' user_id' city dept'
              (cancel_number q.document_id reason none alert (reserved ∷ []) r.1).1
            ≡ ok r')
        × (r'.0.sequence ≡ r.0.sequence)
  recycled-number reason alert year ne z z' none_left unlocked =
      let cancelled_tables = with_cancelled first_row first_tables in
      (
        fresh_reservation env key q user_id city dept db,
        reserve_global-fresh env key q user_id city dept db z,
        fresh_reservation env' key' q' user_id' city dept' cancelled_tables,
        rw
            (cancel_new first_row first_tables reason alert refl refl
              (still (has_id q.document_id) z))
            (reserve_global-fresh env' key' q' user_id' city dept' cancelled_tables
              (absent_after ne z')),
        rw year (
            ap some (
              next_after_cancel env' q.year first_row first_tables refl refl refl unlocked
                (still (recyclable env' q.year) none_left))),
      )
