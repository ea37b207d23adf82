-- ===== src/Prelude/Lists.antt =====
-- Lists measured and searched by Boolean tests, over the native numbers.
use Prim.Native.Nat.{ℕ, suc, ◌+◌, ◌≤◌}
use mathlib.Core.Path.{◌≡◌, refl, sym, subst}
use mathlib.Core.Logic.{◌⊎◌, inl, inr}
use mathlib.Core.Bool.{Bool, true, false, ◌&&◌, ◌||◌}
use mathlib.Core.Option.{Option, none, some}
use mathlib.Core.List.{List, [], ◌∷◌, ◌++◌}
use mathlib.Core.List.{Memᴰ}
use native.Mathlib.Omega.{arith}
use gdi_backend.Prelude.Tests.{if◌then◌else◌, Bool-cases, Option-cases}

module _ {ℓ} {A : Type ℓ} where
  abbrev pub length : List A → ℕ
  length [] = 0
  length (x ∷ xs) = suc (length xs)

  abbrev pub is_empty : List A → Bool
  is_empty [] = true
  is_empty (x ∷ xs) = false

  -- How many entries pass a test.
  abbrev pub count_if : (A → Bool) → List A → ℕ
  count_if p [] = 0
  count_if p (x ∷ xs) = (if p x then 1 else 0) + count_if p xs

  abbrev pub find_if : (A → Bool) → List A → Option A
  find_if p [] = none
  find_if p (x ∷ xs) = if p x then some x else find_if p xs

  abbrev pub any_of : (A → Bool) → List A → Bool
  any_of p [] = false
  any_of p (x ∷ xs) = p x || any_of p xs

  abbrev pub all_of : (A → Bool) → List A → Bool
  all_of p [] = true
  all_of p (x ∷ xs) = p x && all_of p xs

  abbrev pub keep_if : (A → Bool) → List A → List A
  keep_if p [] = []
  keep_if p (x ∷ xs) = let rest = keep_if p xs in if p x then x ∷ rest else rest

  abbrev pub keep_least : (A → A → Bool) → (A → Bool) → A → Option A → Option A
  keep_least before p x none = if p x then some x else none
  keep_least before p x (some y) = if p x && before x y then some x else some y

  -- ORDER BY … LIMIT 1: the first of the entries that pass, in an order.
  abbrev pub least_if : (A → A → Bool) → (A → Bool) → List A → Option A
  least_if before p [] = none
  least_if before p (x ∷ xs) = keep_least before p x (least_if before p xs)

  -- UPDATE … WHERE p: the entries that pass are rewritten by f.
  abbrev pub update_if : (A → Bool) → (A → A) → List A → List A
  update_if p f [] = []
  update_if p f (x ∷ xs) = (if p x then f x else x) ∷ update_if p f xs

  pub any_of-append :
      (p : A → Bool) (xs ys : List A) → any_of p (xs ++ ys) ≡ any_of p xs || any_of p ys
  any_of-append p [] ys = refl
  any_of-append p (x ∷ xs) ys = ground (arith, any_of-append p xs ys)

  pub length-append : (xs ys : List A) → length (xs ++ ys) ≡ length xs + length ys
  length-append [] ys = omega arith
  length-append (x ∷ xs) ys = omega (arith, length-append xs ys)

  pub count_if-append :
      (p : A → Bool) (xs ys : List A) → count_if p (xs ++ ys) ≡ count_if p xs + count_if p ys
  count_if-append p [] ys = omega arith
  count_if-append p (x ∷ xs) ys = omega (arith, count_if-append p xs ys)

module _ {ℓ ℓ'} {A : Type ℓ} {B : Type ℓ'} where
  -- A join: the rows that each entry gives, in order.
  abbrev pub concat_map : (A → List B) → List A → List B
  concat_map f [] = []
  concat_map f (x ∷ xs) = f x ++ concat_map f xs

  -- A join has a row that passes when some entry gives one.
  pub any_of-concat_map :
      (p : B → Bool) (f : A → List B) (xs : List A)
      → any_of p (concat_map f xs) ≡ any_of (λ x. any_of p (f x)) xs
  any_of-concat_map p f [] = refl
  any_of-concat_map p f (x ∷ xs) =
      rw (any_of-append p (f x) (concat_map f xs), any_of-concat_map p f xs) refl

module _ {ℓ} {A : Type ℓ} where
  -- An entry that passes, when there is one.
  pub any_of-witness :
      (p : A → Bool) (xs : List A) → any_of p xs ≡ true → (x : A) × Memᴰ x xs × (p x ≡ true)
  any_of-witness p [] h = cc
  any_of-witness p (x ∷ xs) h = elim (Bool-cases (p x)) [
    | inl e ↦ (x, Memᴰ.head refl, e)
    | inr n ↦ let (y, m, e) = any_of-witness p xs (ground (arith, n, h)) in (y, Memᴰ.tail m, e)
  ]

  pub any_of-intro :
      (p : A → Bool) {x : A} (xs : List A) → Memᴰ x xs → p x ≡ true → any_of p xs ≡ true
  any_of-intro p [] m h = elim m [ ]
  any_of-intro p (y ∷ xs) (Memᴰ.head e) h = rw (sym e, h) refl
  any_of-intro p (y ∷ xs) (Memᴰ.tail m) h = ground (arith, any_of-intro p xs m h)

  pub any_of-imply :
      (p q : A → Bool) (xs : List A)
      → ((x : A) → p x ≡ true → q x ≡ true)
      → any_of p xs ≡ true
      → any_of q xs ≡ true
  any_of-imply p q [] f h = h
  any_of-imply p q (x ∷ xs) f h = elim (Bool-cases (p x)) [
    | inl e ↦ rw (f x e) refl
    | inr n ↦ ground (arith, any_of-imply p q xs f (ground (arith, n, h)))
  ]

  pub count_if-Mem :
      (p : A → Bool) {x : A} (xs : List A) → Memᴰ x xs → p x ≡ true → 1 ≤ count_if p xs
  count_if-Mem p [] m h = elim m [ ]
  count_if-Mem p (y ∷ xs) (Memᴰ.head e) h = rw (sym e, h) (omega arith)
  count_if-Mem p (y ∷ xs) (Memᴰ.tail m) h = omega (arith, count_if-Mem p xs m h)

  -- Which entry is kept, and why the other one is not.
  keep_least-cases :
      (before : A → A → Bool) (p : A → Bool) (x : A) (o : Option A) {y : A}
      → keep_least before p x o ≡ some y
      → ((y ≡ x) × (p x ≡ true) × ((w : A) → o ≡ some w → before x w ≡ true))
        ⊎ ((o ≡ some y) × (p x ≡ true → before x y ≡ false))
  keep_least-cases before p x none h = elim (Bool-cases (p x)) [
    | inl e ↦ inl (cc, e, λ w k. cc)
    | inr n ↦ cc
  ]
  keep_least-cases before p x (some z) {y} h = elim (Bool-cases (p x && before x z)) [
    | inl e ↦
        let first : before x z ≡ true = ground (arith, e) in inl (cc, ground (arith, e), λ w k. cc)
    | inr n ↦
        let e : z ≡ y = cc in
        inr (cc, λ q. subst (λ v. before x v ≡ false) e (ground (arith, q, n)))
  ]

  keep_least-none :
      (before : A → A → Bool) (p : A → Bool) (x : A) (o : Option A)
      → keep_least before p x o ≡ none
      → (o ≡ none) × (p x ≡ false)
  keep_least-none before p x none h = elim (Bool-cases (p x)) [ inl e ↦ cc | inr n ↦ (refl, n) ]
  keep_least-none before p x (some y) h = elim (Bool-cases (p x && before x y)) [
    | inl e ↦ cc
    | inr n ↦ cc
  ]

  -- The first entry in an order is one that passes.
  pub least_if-Mem :
      (before : A → A → Bool) (p : A → Bool) (xs : List A) {y : A}
      → least_if before p xs ≡ some y
      → Memᴰ y xs × (p y ≡ true)
  least_if-Mem before p [] h = cc
  least_if-Mem before p (x ∷ xs) {y} h =
      elim (keep_least-cases before p x (least_if before p xs) h) [
        | inl (e, passes, first) ↦ (Memᴰ.head e, rw e passes)
        | inr (found, first) ↦
            let (m, passes) = least_if-Mem before p xs found in (Memᴰ.tail m, passes)
      ]

  -- When none is found, none passes.
  pub least_if-none :
      (before : A → A → Bool) (p : A → Bool) (xs : List A) {z : A}
      → least_if before p xs ≡ none
      → Memᴰ z xs
      → p z ≡ false
  least_if-none before p [] h m = elim m [ ]
  least_if-none before p (x ∷ xs) h (Memᴰ.head e) =
      rw e (keep_least-none before p x (least_if before p xs) h).1
  least_if-none before p (x ∷ xs) h (Memᴰ.tail m) =
      least_if-none before p xs (keep_least-none before p x (least_if before p xs) h).0 m

  -- In a total order it comes before every other entry that passes.
  pub least_if-least :
      (before : A → A → Bool) (p : A → Bool)
      → ((a : A) → before a a ≡ true)
      → ((a b : A) → before a b ≡ false → before b a ≡ true)
      → ((a b c : A) → before a b ≡ true → before b c ≡ true → before a c ≡ true)
      → (xs : List A) {y z : A} → least_if before p xs ≡ some y
      → Memᴰ z xs
      → p z ≡ true
      → before y z ≡ true
  least_if-least before p same total trans [] h m pass = cc
  least_if-least before p same total trans (x ∷ xs) {y} {z} h (Memᴰ.head q) pass =
      elim (keep_least-cases before p x (least_if before p xs) h) [
        | inl (e, passes, first) ↦ rw (e, q) (same x)
        | inr (found, first) ↦ rw q (total x y (first (subst (λ v. p v ≡ true) q pass)))
      ]
  least_if-least before p same total trans (x ∷ xs) {y} {z} h (Memᴰ.tail m) pass =
      elim (keep_least-cases before p x (least_if before p xs) h) [
        | inl (e, passes, first) ↦ elim (Option-cases (least_if before p xs)) [
          | inl gone ↦ let never : p z ≡ false = least_if-none before p xs gone m in cc
          | inr (w, found) ↦ rw e (
              trans x w z (first w found)
                (least_if-least before p same total trans xs found m pass))
        ]
        | inr (found, first) ↦ least_if-least before p same total trans xs found m pass
      ]
