-- ===== src/Numbering/Numbers.antt =====
-- The two ways in which shared/numbering.py gives a number once, together: the GLOBAL sequence of a
-- year and the SPECIAL lanes.
use gdi_backend.Prelude.{ℕ, ◌≡◌, Bool, refl, arith, Option-cases, inl, inr, count_if, update_if}
use gdi_backend.Numbering.Tables.{ReservationStatus, cancelled, OfficialDocument, Db, Env}
use gdi_backend.Numbering.Reserve.{reserved_row, cancel_reserved}
use gdi_backend.Numbering.Lifecycle.{with_status}
use gdi_backend.Numbering.Counting.{count-update}
use gdi_backend.Numbering.Queries.{oldest, recyclable, next_global_sequence}
use gdi_backend.Numbering.Sequence.{holds, mixed, HasUniqueSequences, next_global_sequence-count-le}
use gdi_backend.Numbering.Lanes.{
  HasUniqueLanes, Shrinks, Shrinks-HasUniqueLanes, holds_special, unnumbered,
}

pub Shrinks-trans : {a b c : Db} → Shrinks a b → Shrinks b c → Shrinks a c
Shrinks-trans s t = record {
  rows = λ q. omega (arith, s.rows q, t.rows q);
  lanes = λ x y z. omega (arith, s.lanes x y z, t.lanes x y z);
}

pub Shrinks-HasUniqueSequences :
    (db db' : Db) → Shrinks db db' → HasUniqueSequences db → HasUniqueSequences db'
Shrinks-HasUniqueSequences db db' sh u = record {
  at_most_one = λ y s. omega (arith, sh.rows (holds y s), u.at_most_one y s);
  unmixed = omega (arith, sh.rows mixed, u.unmixed);
}

-- No number of a year's sequence and no number of a lane stands in two rows.
pub record HasUniqueNumbers (db : Db) : Type 0 where
  pub sequences : HasUniqueSequences db
  pub special : HasUniqueLanes db

pub Shrinks-HasUniqueNumbers :
    (db db' : Db) → Shrinks db db' → HasUniqueNumbers db → HasUniqueNumbers db'
Shrinks-HasUniqueNumbers db db' sh u = record {
  sequences = Shrinks-HasUniqueSequences db db' sh u.sequences;
  special = Shrinks-HasUniqueLanes db db' sh u.special;
}

next_global_sequence-counters :
    (env : Env) (year : ℕ) (db : Db) → (next_global_sequence env year db).1.counters ≡ db.counters
unfolding next_global_sequence
next_global_sequence-counters env year db =
    elim (Option-cases (oldest (recyclable env year) db.documents)) [
      | inl empty ↦ rw empty
      | inr (r, found) ↦ rw found
    ]

pub next_global_sequence-Shrinks :
    (env : Env) (year : ℕ) (db : Db) → Shrinks db (next_global_sequence env year db).1
next_global_sequence-Shrinks env year db = record {
  rows = λ q. next_global_sequence-count-le q env year db;
  lanes = λ t y dp. rw (next_global_sequence-counters env year db) (omega arith);
}

-- A change of the status alone gives no number: the counts of numbers stay.
module _ (p : OfficialDocument → Bool) (status : ReservationStatus) (db : Db) where
  abbrev pub restated : Db
  restated = record db { documents = update_if p (with_status status) db.documents }

  same :
      (q : OfficialDocument → Bool)
      → ((d : OfficialDocument) → q (with_status status d) ≡ q d)
      → count_if q restated.documents ≡ count_if q db.documents
  same q e = count-update q p (with_status status) db.documents e

  pub restated-HasUniqueNumbers : HasUniqueNumbers db → HasUniqueNumbers restated
  restated-HasUniqueNumbers u = record {
    sequences = record {
      at_most_one = λ y s. rw (same (holds y s) (λ d. refl)) (u.sequences.at_most_one y s);
      unmixed = rw (same mixed (λ d. refl)) u.sequences.unmixed;
    };
    special = record {
      at_most_one = λ t dp y s.
          rw (same (holds_special t dp y s) (λ d. refl)) (u.special.at_most_one t dp y s);
      counted = λ t dp y s h.
          rw (same (holds_special t dp y s) (λ d. refl)) (u.special.counted t dp y s h);
      numbered = rw (same unnumbered (λ d. refl)) u.special.numbered;
    };
  }

pub cancel_reserved-HasUniqueNumbers :
    (id : ℕ) (db : Db) → HasUniqueNumbers db → HasUniqueNumbers (cancel_reserved id db)
cancel_reserved-HasUniqueNumbers id db u =
    restated-HasUniqueNumbers (reserved_row id) cancelled db u
