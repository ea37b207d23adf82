-- ===== src/Numbering/LaneReserve.antt =====
-- `reserve_number` of shared/numbering.py in the SPECIAL regime keeps both ways in which numbers
-- are given once, whatever rows other transactions hold.
use gdi_backend.Prelude.{
  ℕ, ◌+◌, ◌≤◌, ◌≡◌, refl, Option, none, some, Option-cases, Bool-cases, inl, inr, arith, ◌==◌,
  count_if, find_if,
}
use gdi_backend.Numbering.Format.{Text}
use gdi_backend.Numbering.Tables.{
  OfficialDocument, Counter, Db, Constraint, committed, Env, Request,
}
use gdi_backend.Numbering.Queries.{oldest, delete_own_cancelled}
use gdi_backend.Numbering.Reserve.{live_row}
use gdi_backend.Numbering.Special.{
  on_lane, special_recyclable, upsert_counter, next_special_number, special_document,
  insert_special, take_special, active_reservation, enter_lane, lane_shared, reserve_special,
}
use gdi_backend.Numbering.Counting.{bit}
use gdi_backend.Numbering.Numbers.{HasUniqueNumbers, Shrinks-trans, Shrinks-HasUniqueNumbers}
use gdi_backend.Numbering.Lanes.{
  holds_special, Shrinks, delete_own-Shrinks, upsert_counter-Shrinks, upsert_counter_lem,
  next_special_number-Shrinks, next_special_number-free, hold_lane-lane_last, le-hold_lane,
}

module _ (env : Env) (q : Request) (user_id : ℕ) (city : Text) (dept : Text × ℕ) (n : ℕ)
    (db : Db) where
  abbrev the_row : OfficialDocument
  the_row = special_document env q user_id city dept n

  insert_special-HasUniqueNumbers :
      (db₀ : Db) {c : Counter} (v : Option Constraint)
      → HasUniqueNumbers db₀
      → HasUniqueNumbers db
      → find_if (on_lane q.document_type_id q.year dept.1) db.counters ≡ some c
      → ((t dp y s : ℕ)
          → count_if (holds_special t dp y s) db.documents + bit (holds_special t dp y s the_row)
            ≤ 1)
      → HasUniqueNumbers (committed db₀ (insert_special q dept.1 n the_row db v))
  insert_special-HasUniqueNumbers db₀ (some v) u₀ u lane room =
      elim (Option-cases (find_if (live_row q.document_id) db.documents)) [
        | inl nobody ↦ rw nobody u₀
        | inr (e, other) ↦ rw other u
      ]
  insert_special-HasUniqueNumbers db₀ none u₀ u lane room = record {
    sequences = record {
      at_most_one = λ y s. ground (arith, u.sequences.at_most_one y s);
      unmixed = ground (arith, u.sequences.unmixed);
    };
    special = record {
      at_most_one = λ t dp y s. ground (arith, room t dp y s);
      counted = λ t dp y s h. ground (
        arith,
        u.special.counted t dp y s,
        hold_lane-lane_last q n (on_lane q.document_type_id q.year dept.1) db.counters t y dp,
        le-hold_lane q n q.document_type_id q.year dept.1 db.counters lane,
      );
      numbered = ground (arith, u.special.numbered);
    };
  }

next_special_number-counters :
    (env : Env) (t dp y : ℕ) (c : Counter) (db : Db)
    → (next_special_number env t dp y c db).1.counters ≡ db.counters
unfolding next_special_number
next_special_number-counters env t dp y c db =
    elim (Option-cases (oldest (special_recyclable env t dp y) db.documents)) [
      | inl empty ↦ rw empty
      | inr (r, found) ↦ rw found
    ]

module _ (env : Env) (q : Request) (user_id : ℕ) (city : Text) (dept : Text × ℕ) (db₀ : Db)
    (u₀ : HasUniqueNumbers db₀) where
  take_special-HasUniqueNumbers :
      (c : Counter) (db : Db)
      → HasUniqueNumbers db
      → find_if (on_lane q.document_type_id q.year dept.1) db.counters ≡ some c
      → HasUniqueNumbers (committed db₀ (take_special env q user_id city dept c db))
  unfolding take_special
  take_special-HasUniqueNumbers c db u lane =
      let t = q.document_type_id in
      let (n, db₁) = next_special_number env t dept.1 q.year c db in
      let db₂ = delete_own_cancelled q.document_id db₁ in
      let own = delete_own-Shrinks q.document_id db₁ in
      let less : Shrinks db db₂ =
        Shrinks-trans (next_special_number-Shrinks env t dept.1 q.year c db) own in
      insert_special-HasUniqueNumbers env q user_id city dept n db₂ db₀ {c = c} _ u₀
        (Shrinks-HasUniqueNumbers db db₂ less u)
        (unfold delete_own_cancelled in
          rw (next_special_number-counters env t dept.1 q.year c db) lane)
        (λ t' dp' y' s. omega (
          arith,
          own.rows (holds_special t' dp' y' s),
          next_special_number-free env t dept.1 q.year c db u.special (rw lane refl) t' dp' y' s,
        ))

  enter_lane-HasUniqueNumbers :
      (c : Counter) (db : Db) (holder : Option OfficialDocument)
      → HasUniqueNumbers db
      → find_if (on_lane q.document_type_id q.year dept.1) db.counters ≡ some c
      → HasUniqueNumbers (committed db₀ (enter_lane env q user_id city dept c db holder))
  enter_lane-HasUniqueNumbers c db none u lane = take_special-HasUniqueNumbers c db u lane
  enter_lane-HasUniqueNumbers c db (some holder) u lane =
      elim (Bool-cases (holder.id == q.document_id)) [
        | inl own ↦
            rw own (elim (Option-cases (find_if (λ d. d.id == q.document_id) db.documents)) [
              | inl nobody ↦ rw nobody u
              | inr (e, found) ↦ rw found u
            ])
        | inr other ↦ rw other (elim (Bool-cases (lane_shared c q user_id holder)) [
          | inl shared ↦ rw shared (take_special-HasUniqueNumbers c db u lane)
          | inr busy ↦ rw busy u₀
        ])
      ]

  pub reserve_special-HasUniqueNumbers :
      HasUniqueNumbers (committed db₀ (reserve_special env q user_id city dept db₀))
  unfolding reserve_special
  reserve_special-HasUniqueNumbers =
      let (c, db₁) = upsert_counter q.document_type_id q.year dept.1 db₀ in
      enter_lane-HasUniqueNumbers c db₁ (active_reservation c db₁)
        (Shrinks-HasUniqueNumbers db₀ db₁
          (upsert_counter-Shrinks q.document_type_id q.year dept.1 db₀) u₀)
        (upsert_counter_lem q.document_type_id q.year dept.1 db₀).0
