-- ===== src/Numbering/Blocked.antt =====
-- The SPECIAL lane of shared/numbering.py: what the tables say of a document that keeps others out, and
-- that the tests of `reserve_number` find it.
use gdi_backend.Prelude.{
  ℕ, ◌≡◌, ◌≢◌, refl, ap, ◌∙◌, Memᴰ, find_if-Mem, find_if-none, ==_refl, true, Option-cases, Option,
  none, some, inl, inr, arith, find_if, eq_some, ◌↔◌,
}
use gdi_backend.Numbering.Tables.{
  ReservationStatus, reserved, confirming, confirmed, cancelled, Numerator, user, citizen,
  OfficialDocument, Counter, Db, Request,
}
use gdi_backend.Numbering.Queries.{is_reserved}
use gdi_backend.Numbering.Reserve.{reserved_row}
use gdi_backend.Numbering.Special.{
  same_some, numerator_user, active_reservation, lane_shared, same_batch_and_user,
}

-- The lane's active document is RESERVED, is not the one that asks, and is not of the batch and the
-- user that ask: what the row of the counter and the rows of the documents say.
abbrev pub Blocks : Counter → Request → ℕ → OfficialDocument → Type 0
Blocks c q user_id d =
    (c.active_document_id ≡ some d.id)
    × (d.status ≡ reserved)
    × (d.id ≢ q.document_id)
    × ¬ (
        (b : ℕ) × (c.active_batch_id ≡ some b)
        × (q.batch_id ≡ some b)
        × (d.numerator ≡ user user_id))

-- The primary key of official_documents: the rows of one id are one row.
abbrev pub HasOneRow : Db → Type 0
HasOneRow db =
    (d e : OfficialDocument) → Memᴰ d db.documents → Memᴰ e db.documents → d.id ≡ e.id → d ≡ e

same_some→eq : (x y : Option ℕ) → same_some x y ≡ true → (b : ℕ) × (x ≡ some b) × (y ≡ some b)
same_some→eq none y h = cc
same_some→eq (some a) none h = cc
same_some→eq (some a) (some b) h = let e : a ≡ b = ground (arith, h) in (b, ap some e, refl)

eq→same_some : (x y : Option ℕ) {b : ℕ} → x ≡ some b → y ≡ some b → same_some x y ≡ true
eq→same_some x y {b} e f = rw (e, f) (==_refl b)

numerator_user→eq : (n : Numerator) (u : ℕ) → eq_some (numerator_user n) u ≡ true → n ≡ user u
numerator_user→eq (user v) u h = let e : v ≡ u = ground (arith, h) in ap user e
numerator_user→eq (citizen v) u h = cc

-- The Boolean test of `_misma_tanda_y_mismo_usuario` says what the columns say.
pub lane_shared_iff :
    (c : Counter) (q : Request) (user_id : ℕ) (d : OfficialDocument)
    → (lane_shared c q user_id d ≡ true) ↔ (
        (b : ℕ) × (c.active_batch_id ≡ some b)
        × (q.batch_id ≡ some b)
        × (d.numerator ≡ user user_id))
unfolding same_batch_and_user
lane_shared_iff c q user_id d = (
  λ h.
      let (b, e, f) = same_some→eq c.active_batch_id q.batch_id (ground (arith, h)) in
      (b, e, f, numerator_user→eq d.numerator user_id (ground (arith, h))),
  λ (b, e, f, n).
      let same : same_some c.active_batch_id q.batch_id ≡ true =
        eq→same_some c.active_batch_id q.batch_id e f in
      rw (same, n) (==_refl user_id),
)

is_reserved→eq : (s : ReservationStatus) → is_reserved s ≡ true → s ≡ reserved
is_reserved→eq reserved h = refl
is_reserved→eq confirming h = cc
is_reserved→eq confirmed h = cc
is_reserved→eq cancelled h = cc

-- The row that the lane's counter leads to.
pub active-found :
    (c : Counter) (db : Db) {d : OfficialDocument}
    → active_reservation c db ≡ some d
    → Memᴰ d db.documents × (c.active_document_id ≡ some d.id) × (d.status ≡ reserved)
active-found c db {d} h = go c.active_document_id refl h
  where
    go :
        (o : Option ℕ)
        → c.active_document_id ≡ o
        → (elim o [ none ↦ none | some a ↦ find_if (reserved_row a) db.documents ]) ≡ some d
        → Memᴰ d db.documents × (c.active_document_id ≡ some d.id) × (d.status ≡ reserved)
    go none e k = cc
    go (some a) e k =
        let (m, passes) = find_if-Mem (reserved_row a) db.documents k in
        let same : a ≡ d.id = ground (arith, passes) in
        (m, e ∙ ap some same, is_reserved→eq d.status (ground (arith, passes)))

-- And the row is the one that the counter leads to.
pub found-active :
    (c : Counter) (db : Db) (d : OfficialDocument)
    → HasOneRow db
    → Memᴰ d db.documents
    → c.active_document_id ≡ some d.id
    → d.status ≡ reserved
    → active_reservation c db ≡ some d
found-active c db d one m active waits =
    rw active (elim (Option-cases (find_if (reserved_row d.id) db.documents)) [
      | inl missing ↦
          let fails = find_if-none (reserved_row d.id) db.documents missing m in
          let passes : reserved_row d.id d ≡ true = rw (waits, ==_refl d.id) refl in absurd (cc)
      | inr (e, found) ↦
          let (m', passes) = find_if-Mem (reserved_row d.id) db.documents found in
          let same : e.id ≡ d.id = ground (arith, passes) in rw found (ap some (one e d m' m same))
    ])
