-- ===== src/Numbering/Counting.antt =====
-- How often the rows of official_documents pass a test, under the statements of
-- shared/numbering.py: deletion, update, and the choice of the oldest row.
use gdi_backend.Prelude.{
  ℕ, ◌+◌, ◌≤◌, ◌≡◌, refl, Bool, true, false, none, some, List, [], ◌∷◌, arith, ◌⊎◌, inl, inr, ◌∙◌,
  Bool-cases, Option-cases, if◌then◌else◌, count_if, keep_if, update_if,
}
use gdi_backend.Numbering.Tables.{OfficialDocument}
use gdi_backend.Numbering.Queries.{oldest, reserved_before}

-- `[ b ]` of the usual notation: a test counted as a number.
abbrev pub bit : Bool → ℕ
bit b = if b then 1 else 0

module _ {ℓ} {A : Type ℓ} where
  pub count-keep : (q k : A → Bool) (xs : List A) → count_if q (keep_if k xs) ≤ count_if q xs
  count-keep q k [] = omega arith
  count-keep q k (x ∷ xs) = ground (arith, count-keep q k xs)

  -- An update that keeps a test, row by row, keeps its count.
  pub count-update :
      (q p : A → Bool) (f : A → A) (xs : List A)
      → ((x : A) → q (f x) ≡ q x)
      → count_if q (update_if p f xs) ≡ count_if q xs
  count-update q p f [] same = refl
  count-update q p f (x ∷ xs) same = ground (arith, same x, count-update q p f xs same)

  -- An update that can only fail a test does not raise its count.
  pub count-update-le :
      (q p : A → Bool) (f : A → A) (xs : List A)
      → ((x : A) → p x ≡ true → q (f x) ≡ true → q x ≡ true)
      → count_if q (update_if p f xs) ≤ count_if q xs
  count-update-le q p f [] less = omega arith
  count-update-le q p f (x ∷ xs) less = ground (arith, less x, count-update-le q p f xs less)

pub oldest-none :
    (p : OfficialDocument → Bool) (ds : List OfficialDocument)
    → oldest p ds ≡ none
    → count_if p ds ≡ 0
unfolding oldest
oldest-none p [] h = refl
oldest-none p (d ∷ ds) h = ground (arith, oldest-none p ds)

-- The oldest row is the first one, which passes, or the oldest of the rest.
oldest-cons :
    (p : OfficialDocument → Bool) (d : OfficialDocument) (ds : List OfficialDocument)
    {r : OfficialDocument}
    → oldest p (d ∷ ds) ≡ some r
    → ((r ≡ d) × (p d ≡ true)) ⊎ (oldest p ds ≡ some r)
unfolding oldest
oldest-cons p d ds h = elim (Bool-cases (p d)) [
  | inr skip ↦ inr (rw skip at h)
  | inl pass ↦ elim (Option-cases (oldest p ds)) [
    | inl only ↦ inl (cc (rw (pass, only) at h), pass)
    | inr (e, best) ↦ elim (Bool-cases (reserved_before d.reserved_at e.reserved_at)) [
      | inl first ↦ inl (cc (rw (pass, best, first) at h), pass)
      | inr later ↦ inr (best ∙ (rw (pass, best, later) at h))
    ]
  ]
]

pub oldest-passes :
    (p : OfficialDocument → Bool) (ds : List OfficialDocument) {r : OfficialDocument}
    → oldest p ds ≡ some r
    → p r ≡ true
unfolding oldest
oldest-passes p [] h = cc
oldest-passes p (d ∷ ds) h = elim (oldest-cons p d ds h) [
  | inl (e, pass) ↦ rw e pass
  | inr later ↦ oldest-passes p ds later
]

-- Deleting the chosen row, among others, takes it off every count that it was in.
pub count-drop-oldest :
    (p q k : OfficialDocument → Bool) (ds : List OfficialDocument) {r : OfficialDocument}
    → oldest p ds ≡ some r
    → k r ≡ false
    → count_if q (keep_if k ds) + bit (q r) ≤ count_if q ds
unfolding oldest
count-drop-oldest p q k [] h g = cc
count-drop-oldest p q k (d ∷ ds) {r} h g = elim (oldest-cons p d ds h) [
  | inl (e, _) ↦ rw e (rw (rw e at g) (omega (arith, count-keep q k ds)))
  | inr later ↦ ground (arith, count-drop-oldest p q k ds later g)
]
