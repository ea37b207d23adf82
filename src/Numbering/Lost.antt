-- ===== src/Numbering/Lost.antt =====
-- Where shared/numbering.py loses a number of the GLOBAL sequence, or cannot give one: a recycled
-- row is deleted before the INSERT that is to use its number.
use gdi_backend.Prelude.{
  ℕ, ◌<◌, ◌≡◌, refl, ◌∙◌, ◌&&◌, not, none, some, List, [], ◌∷◌, arith, count_if, keep_if, find_if,
  ◌==◌,
}
use gdi_backend.Numbering.Format.{Text}
use gdi_backend.Numbering.Tables.{
  OfficialDocument, Db, citizen, user, official_documents_pkey, ok, raised, unique_violation, Env,
  Request,
}
use gdi_backend.Numbering.Queries.{
  is_cancelled, oldest, recyclable, column, next_global_sequence, drop_recycled,
  delete_own_cancelled,
}
use gdi_backend.Numbering.Reserve.{
  reservation_of, reserved_row, live_row, global_document, take_global, reserve_global,
}
use gdi_backend.Numbering.Entry.{take_citizen}
use gdi_backend.Numbering.Counting.{oldest-passes}
use gdi_backend.Numbering.Sequence.{
  holds, HasUniqueSequences, count-drop-recycled, recyclable_fields, delete_own_cancelled-count-le,
}
use gdi_backend.Numbering.Retry.{has_id, HasPrimaryKey}

-- Deleting cancelled rows leaves the live rows of a document where they are.
live_after_delete :
    (id k : ℕ) (ds : List OfficialDocument)
    → find_if (live_row id) (keep_if (λ d. not (d.id == k && is_cancelled d.status)) ds)
      ≡ find_if (live_row id) ds
live_after_delete id k [] = refl
live_after_delete id k (d ∷ ds) = ground (arith, live_after_delete id k ds)

found_has_id :
    (id : ℕ) (ds : List OfficialDocument) {e : OfficialDocument}
    → find_if (live_row id) ds ≡ some e
    → 0 < count_if (has_id id) ds
found_has_id id [] h = cc
found_has_id id (d ∷ ds) {e} h = ground (arith, found_has_id id ds {e = e})

-- The tables after a recycled row is deleted and then the own cancelled row.
abbrev pub swept : ℕ → OfficialDocument → Db → Db
swept id r db = delete_own_cancelled id (drop_recycled r db)

swept-live :
    (id k : ℕ) (r : OfficialDocument) (db : Db)
    → find_if (live_row id) (swept k r db).documents ≡ find_if (live_row id) db.documents
unfolding delete_own_cancelled
swept-live id k r db =
    live_after_delete id k (drop_recycled r db).documents ∙ live_after_delete id r.id db.documents

recycled_gone :
    (env : Env) (year id : ℕ) (db : Db) {r : OfficialDocument} {n : ℕ}
    → HasUniqueSequences db
    → oldest (recyclable env year) db.documents ≡ some r
    → r.global_sequence ≡ some n
    → (count_if (holds year n) db.documents ≡ 1)
      × (count_if (holds year n) (swept id r db).documents ≡ 0)
recycled_gone env year id db {r} {n} u found number =
    let (gone, same_year, _) =
      recyclable_fields env year r (oldest-passes (recyclable env year) db.documents found) in
    ground (
      arith,
      u.at_most_one year n,
      same_year,
      number,
      count-drop-recycled (recyclable env year) (holds year n) db found gone,
      delete_own_cancelled-count-le (holds year n) id (drop_recycled r db),
    )

module _ (env : Env) (key : HasPrimaryKey env) (q : Request) (user_id : ℕ) (city : Text)
    (dept : Text × ℕ) (db : Db) where
  -- A document that already has a number in course or final, while a cancelled row can be recycled:
  -- reserving once more returns the old number, and the cancelled row's number, which stood in
  -- exactly one row, stands in none: it is neither given nor left to be recycled.
  pub reserve_global-loses-number :
      {e r : OfficialDocument} {n : ℕ}
      → HasUniqueSequences db
      → find_if (reserved_row q.document_id) db.documents ≡ none
      → find_if (live_row q.document_id) db.documents ≡ some e
      → oldest (recyclable env q.year) db.documents ≡ some r
      → r.global_sequence ≡ some n
      → (db' : Db) × (reserve_global env q user_id city dept db
          ≡ ok (reservation_of e e.global_sequence, db'))
        × (count_if (holds q.year n) db.documents ≡ 1)
        × (count_if (holds q.year n) db'.documents ≡ 0)
  unfolding reserve_global take_global next_global_sequence
  reserve_global-loses-number {e} {r} {n} u idle live found number =
      let (one, zero_left) = recycled_gone env q.year q.document_id db u found number in
      let db' = swept q.document_id r db in
      let still = swept-live q.document_id q.document_id r db ∙ live in
      let d = global_document env q (user user_id) city dept (column r.global_sequence) in
      (
        db',
        rw
            (
              idle,
              found,
              key.refuses d db'.documents (found_has_id q.document_id db'.documents still),
              still,
            )
            refl,
        one,
        zero_left,
      )

  -- A citizen's document whose reservation is cancelled, or has just expired, while an older
  -- cancelled row of another document is to be recycled: the reservation raises a violation of the
  -- primary key, and so it does each time, since the tables stay as they are.
  pub take_citizen-stuck :
      {r : OfficialDocument}
      → oldest (recyclable env q.year) db.documents ≡ some r
      → 0 < count_if (has_id q.document_id) (drop_recycled r db).documents
      → take_citizen env q user_id city dept db ≡ raised (unique_violation official_documents_pkey)
  unfolding take_citizen next_global_sequence
  take_citizen-stuck {r} found own =
      let d = global_document env q (citizen user_id) city dept (column r.global_sequence) in
      rw (found, key.refuses d (drop_recycled r db).documents own) refl
