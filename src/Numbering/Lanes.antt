-- ===== src/Numbering/Lanes.antt =====
-- The SPECIAL regime of shared/numbering.py: a lane's numbers are given once, and the lane's
-- counter is never behind them.
use gdi_backend.Prelude.{
  ℕ, ◌+◌, ◌≤◌, ◌<◌, ◌≡◌, refl, Bool, true, false, ◌&&◌, not, Option, none, some, Option-cases,
  Bool-cases, inl, inr, List, [], ◌∷◌, arith, ◌==◌, ==_refl, eq_some, count_if, find_if, update_if,
}
use gdi_backend.Numbering.Tables.{OfficialDocument, Counter, Db, Env, Request}
use gdi_backend.Numbering.Queries.{is_cancelled, oldest, delete_own_cancelled}
use gdi_backend.Numbering.Special.{
  is_special, on_lane, new_counter, upsert_counter, special_recyclable, next_special_number,
  hold_lane,
}
use gdi_backend.Numbering.Counting.{bit, count-keep, oldest-passes, count-drop-oldest}
use gdi_backend.Numbering.Sequence.{count-drop-recycled}

-- The row stands for the number `s` of the lane of type `t`, department `dp` and year `y`.
abbrev pub holds_special : ℕ → ℕ → ℕ → ℕ → OfficialDocument → Bool
holds_special t dp y s d =
    d.document_type_id == t && d.department_id == dp && d.year == y && eq_some d.special_number s

abbrev no_number : Option ℕ → Bool
no_number none = true
no_number (some n) = false

abbrev pub unnumbered : OfficialDocument → Bool
unnumbered d = is_special d.regime && no_number d.special_number

abbrev counter_last : Option Counter → ℕ
counter_last none = 0
counter_last (some c) = c.last_number

-- The last number of a lane; 0 where it has no counter yet.
abbrev pub lane_last : ℕ → ℕ → ℕ → List Counter → ℕ
lane_last t y dp cs = counter_last (find_if (on_lane t y dp) cs)

pub record HasUniqueLanes (db : Db) : Type 0 where
  pub at_most_one : (t dp y s : ℕ) → count_if (holds_special t dp y s) db.documents ≤ 1
  pub counted :
      (t dp y s : ℕ)
      → lane_last t y dp db.counters < s
      → count_if (holds_special t dp y s) db.documents ≡ 0
  pub numbered : count_if unnumbered db.documents ≡ 0

-- The counter that a function finds, or makes, is the lane's, and nothing else has changed.
pub upsert_counter_lem :
    (t y dp : ℕ) (db : Db)
    → let (c, db') = upsert_counter t y dp db in
      (find_if (on_lane t y dp) db'.counters ≡ some c)
      × (db'.documents ≡ db.documents)
      × (lane_last t y dp db.counters ≡ c.last_number)
unfolding upsert_counter
upsert_counter_lem t y dp db = elim (Option-cases (find_if (on_lane t y dp) db.counters)) [
  | inl missing ↦ rw missing (rw (==_refl t, ==_refl y, ==_refl dp) refl, refl, refl)
  | inr (c, found) ↦ rw found (found, refl, refl)
]

same_lane :
    (t y dp t' y' dp' : ℕ)
    → on_lane t' y' dp' (new_counter t y dp) ≡ true
    → (t ≡ t') × (y ≡ y') × (dp ≡ dp')
same_lane t y dp t' y' dp' h = ground arith

-- A new counter answers for its own lane only, and its last number is 0.
new_counter-lane_last :
    (t y dp t' y' dp' : ℕ) (cs : List Counter)
    → find_if (on_lane t y dp) cs ≡ none
    → lane_last t' y' dp' (new_counter t y dp ∷ cs) ≡ lane_last t' y' dp' cs
new_counter-lane_last t y dp t' y' dp' cs missing =
    elim (Bool-cases (on_lane t' y' dp' (new_counter t y dp))) [
      | inr other ↦ rw other refl
      | inl same ↦
          let (p, r, s) = same_lane t y dp t' y' dp' same in rw (same, ← p, ← r, ← s, missing) refl
    ]

pub upsert_counter-lane_last :
    (t y dp : ℕ) (db : Db) (t' y' dp' : ℕ)
    → lane_last t' y' dp' (upsert_counter t y dp db).1.counters ≡ lane_last t' y' dp' db.counters
unfolding upsert_counter
upsert_counter-lane_last t y dp db t' y' dp' =
    elim (Option-cases (find_if (on_lane t y dp) db.counters)) [
      | inl missing ↦ rw missing (new_counter-lane_last t y dp t' y' dp' db.counters missing)
      | inr (c, found) ↦ rw found refl
    ]

-- Holding a lane raises its last number, and lowers no other's.
pub hold_lane-lane_last :
    (q : Request) (n : ℕ) (p : Counter → Bool) (cs : List Counter) (t y dp : ℕ)
    → lane_last t y dp cs ≤ lane_last t y dp (update_if p (hold_lane q n) cs)
hold_lane-lane_last q n p [] t y dp = omega arith
hold_lane-lane_last q n p (c ∷ cs) t y dp = ground (arith, hold_lane-lane_last q n p cs t y dp)

pub le-hold_lane :
    (q : Request) (n t y dp : ℕ) (cs : List Counter) {c : Counter}
    → find_if (on_lane t y dp) cs ≡ some c
    → n ≤ lane_last t y dp (update_if (on_lane t y dp) (hold_lane q n) cs)
le-hold_lane q n t y dp [] h = cc
le-hold_lane q n t y dp (d ∷ cs) h = elim (Bool-cases (on_lane t y dp d)) [
  | inl here ↦ rw (here, here) (omega arith)
  | inr there ↦ rw (there, there) (le-hold_lane q n t y dp cs (rw there at h))
]

-- Every count of rows is at most what it was, and no lane's last number is smaller.
pub record Shrinks (db db' : Db) : Type 0 where
  pub rows : (q : OfficialDocument → Bool) → count_if q db'.documents ≤ count_if q db.documents
  pub lanes : (t y dp : ℕ) → lane_last t y dp db.counters ≤ lane_last t y dp db'.counters

pub Shrinks-HasUniqueLanes : (db db' : Db) → Shrinks db db' → HasUniqueLanes db → HasUniqueLanes db'
Shrinks-HasUniqueLanes db db' sh u = record {
  at_most_one = λ t dp y s. omega (arith, sh.rows (holds_special t dp y s), u.at_most_one t dp y s);
  counted = λ t dp y s h.
      ground (arith, sh.rows (holds_special t dp y s), sh.lanes t y dp, u.counted t dp y s);
  numbered = omega (arith, sh.rows unnumbered, u.numbered);
}

pub delete_own-Shrinks : (id : ℕ) (db : Db) → Shrinks db (delete_own_cancelled id db)
unfolding delete_own_cancelled
delete_own-Shrinks id db = record {
  rows = λ q. count-keep q _ db.documents;
  lanes = λ t y dp. omega arith;
}

pub upsert_counter-Shrinks : (t y dp : ℕ) (db : Db) → Shrinks db (upsert_counter t y dp db).1
upsert_counter-Shrinks t y dp db = record {
  rows = λ q. rw (upsert_counter_lem t y dp db).1 (omega arith);
  lanes = λ t' y' dp'. omega (arith, upsert_counter-lane_last t y dp db t' y' dp');
}

pub next_special_number-Shrinks :
    (env : Env) (t dp y : ℕ) (c : Counter) (db : Db)
    → Shrinks db (next_special_number env t dp y c db).1
unfolding next_special_number
next_special_number-Shrinks env t dp y c db =
    elim (Option-cases (oldest (special_recyclable env t dp y) db.documents)) [
      | inl empty ↦ rw empty (record { rows = λ q. omega arith; lanes = λ t' y' dp'. omega arith })
      | inr (r, found) ↦
          rw found
            (record { rows = λ q. count-keep q _ db.documents; lanes = λ t' y' dp'. omega arith })
    ]

-- What a row that is recycled in a lane passes, field by field.
special_recyclable_fields :
    (env : Env) (t dp y : ℕ) (r : OfficialDocument)
    → special_recyclable env t dp y r ≡ true
    → (is_cancelled r.status ≡ true)
      × (r.document_type_id ≡ t)
      × (r.department_id ≡ dp)
      × (r.year ≡ y)
      × (is_special r.regime ≡ true)
special_recyclable_fields env t dp y r h = ground arith

-- A row that is in a list is in no class that the list has none of.
found_numbered :
    (p q k : OfficialDocument → Bool) (ds : List OfficialDocument) {r : OfficialDocument}
    → oldest p ds ≡ some r
    → k r ≡ false
    → count_if q ds ≡ 0
    → q r ≡ false
found_numbered p q k ds h g z = ground (arith, count-drop-oldest p q k ds h g)

-- The number taken in a lane can be given to one row more of the lane.
pub next_special_number-free :
    (env : Env) (t dp y : ℕ) (c : Counter) (db : Db)
    → HasUniqueLanes db
    → lane_last t y dp db.counters ≡ c.last_number
    → (t' dp' y' s : ℕ)
    → let (n, db') = next_special_number env t dp y c db in
      count_if (holds_special t' dp' y' s) db'.documents
        + bit (t == t' && dp == dp' && y == y' && n == s)
      ≤ 1
unfolding next_special_number
next_special_number-free env t dp y c db u last t' dp' y' s =
    elim (Option-cases (oldest (special_recyclable env t dp y) db.documents)) [
      | inl empty ↦
          rw empty (ground (arith, u.at_most_one t' dp' y' s, u.counted t dp y (c.last_number + 1)))
      | inr (r, found) ↦
          let (gone, type_id, department, year, regime) =
            special_recyclable_fields env t dp y r
              (oldest-passes (special_recyclable env t dp y) db.documents found) in
          rw found (
            ground (
              arith,
              u.at_most_one t' dp' y' s,
              u.numbered,
              found_numbered (special_recyclable env t dp y) unnumbered
                  (λ d. not (d.id == r.id && is_cancelled d.status)) db.documents found
                  (rw (gone, ==_refl r.id)),
              count-drop-recycled (special_recyclable env t dp y) (holds_special t' dp' y' s) db
                  found gone,
            ))
    ]
