-- ===== src/Numbering/Sequence.antt =====
-- The GLOBAL sequence that shared/numbering.py hands out: what `_next_global_sequence` takes, and
-- how often a year's number stands in official_documents.
use gdi_backend.Prelude.{
  ℕ, ◌+◌, ◌≤◌, ◌<◌, ◌≡◌, refl, Bool, true, false, ◌&&◌, some, List, [], ◌∷◌, arith, ◌==◌, eq_some,
  Option-cases, inl, inr, count_if, not, ==_refl,
}
use gdi_backend.Numbering.Tables.{OfficialDocument, Db, Env}
use gdi_backend.Numbering.Queries.{
  is_cancelled, has_sequence, oldest, max_sequence, recyclable, next_global_sequence,
  delete_own_cancelled, drop_recycled, column,
}
use gdi_backend.Numbering.Special.{is_special}
use gdi_backend.Numbering.Counting.{bit, count-keep, oldest-none, oldest-passes, count-drop-oldest}

-- The row stands for the number `s` of the year `y`.
abbrev pub holds : ℕ → ℕ → OfficialDocument → Bool
holds y s d = d.year == y && eq_some d.global_sequence s

-- A SPECIAL row has no number of the GLOBAL sequence.
abbrev pub mixed : OfficialDocument → Bool
mixed d = is_special d.regime && has_sequence d

abbrev pub NobodyLocks : Env → Type 0
NobodyLocks env = (id : ℕ) → env.locked id ≡ false

-- No number of the GLOBAL sequence stands in two rows of its year, cancelled rows included.
pub record HasUniqueSequences (db : Db) : Type 0 where
  pub at_most_one : (y s : ℕ) → count_if (holds y s) db.documents ≤ 1
  pub unmixed : count_if mixed db.documents ≡ 0

-- A number above every live one is held by no row, where there is nothing to recycle.
above_max_free :
    (env : Env) (y s : ℕ) (ds : List OfficialDocument)
    → NobodyLocks env
    → count_if (recyclable env y) ds ≡ 0
    → count_if mixed ds ≡ 0
    → max_sequence y ds < s
    → count_if (holds y s) ds ≡ 0
unfolding max_sequence
above_max_free env y s [] free r m h = refl
above_max_free env y s (d ∷ ds) free r m h =
    ground (arith, free d.id, above_max_free env y s ds free)

-- Deleting a recycled row takes it off the counts, since it is cancelled.
pub count-drop-recycled :
    (p q : OfficialDocument → Bool) (db : Db) {r : OfficialDocument}
    → oldest p db.documents ≡ some r
    → is_cancelled r.status ≡ true
    → count_if q (drop_recycled r db).documents + bit (q r) ≤ count_if q db.documents
count-drop-recycled p q db {r} found gone =
    count-drop-oldest p q (λ d. not (d.id == r.id && is_cancelled d.status)) db.documents found
      (rw (gone, ==_refl r.id))

-- What a row that is recycled passes, field by field.
pub recyclable_fields :
    (env : Env) (year : ℕ) (r : OfficialDocument)
    → recyclable env year r ≡ true
    → (is_cancelled r.status ≡ true)
      × (r.year ≡ year)
      × (r.global_sequence ≡ some (column r.global_sequence))
recyclable_fields env year r h = ground arith

-- The number taken can be given to one row more.
pub next_global_sequence-free :
    (env : Env) (year : ℕ) (db : Db)
    → NobodyLocks env
    → HasUniqueSequences db
    → (y s : ℕ)
    → let (n, db') = next_global_sequence env year db in
      count_if (holds y s) db'.documents + bit (year == y && n == s) ≤ 1
unfolding next_global_sequence
next_global_sequence-free env year db free u y s =
    elim (Option-cases (oldest (recyclable env year) db.documents)) [
      | inl empty ↦ rw empty (
          ground (
            arith,
            u.at_most_one y s,
            u.unmixed,
            oldest-none (recyclable env year) db.documents empty,
            above_max_free env year (max_sequence year db.documents + 1) db.documents free,
          ))
      | inr (r, found) ↦
          let (gone, same_year, number) =
            recyclable_fields env year r (oldest-passes (recyclable env year) db.documents found) in
          rw found (
            ground (
              arith,
              u.at_most_one y s,
              count-drop-recycled (recyclable env year) (holds y s) db found gone,
            ))
    ]

-- Taking a number adds no row.
pub next_global_sequence-count-le :
    (q : OfficialDocument → Bool) (env : Env) (year : ℕ) (db : Db)
    → count_if q (next_global_sequence env year db).1.documents ≤ count_if q db.documents
unfolding next_global_sequence
next_global_sequence-count-le q env year db =
    elim (Option-cases (oldest (recyclable env year) db.documents)) [
      | inl empty ↦ rw empty (omega arith)
      | inr (r, found) ↦ rw found (count-keep q _ db.documents)
    ]

pub delete_own_cancelled-count-le :
    (q : OfficialDocument → Bool) (id : ℕ) (db : Db)
    → count_if q (delete_own_cancelled id db).documents ≤ count_if q db.documents
unfolding delete_own_cancelled
delete_own_cancelled-count-le q id db = count-keep q _ db.documents
