-- ===== src/Prelude/Updates.antt =====
-- UPDATEs of lists one after another, and what is found and summed after one.
use Prim.Native.Nat.{ℕ, ◌+◌, ◌≤◌}
use mathlib.Core.Path.{◌≡◌, refl, sym}
use mathlib.Core.Logic.{inl, inr}
use mathlib.Core.Bool.{Bool, true, false}
use mathlib.Core.Option.{none, some}
use mathlib.Core.List.{List, [], ◌∷◌, Memᴰ}
use native.Mathlib.Omega.{arith}
use gdi_backend.Prelude.Tests.{if◌then◌else◌, Bool-cases}
use gdi_backend.Prelude.Lists.{count_if, find_if, keep_if, update_if}

module _ {ℓ} {A : Type ℓ} where
  -- Two UPDATEs in a row, the second on the rows that the first has rewritten.
  pub update_if-fuse :
      (p q : A → Bool) (f g : A → A)
      → ((x : A) → p x ≡ true → q (f x) ≡ true)
      → ((x : A) → p x ≡ false → q x ≡ false)
      → (xs : List A) → update_if q g (update_if p f xs) ≡ update_if p (λ x. g (f x)) xs
  update_if-fuse p q f g yes' no' [] = refl
  update_if-fuse p q f g yes' no' (x ∷ xs) = elim (Bool-cases (p x)) [
    | inl e ↦ rw (e, yes' x e, update_if-fuse p q f g yes' no' xs) refl
    | inr e ↦ rw (e, no' x e, update_if-fuse p q f g yes' no' xs) refl
  ]

  pub find_if-updated :
      (p : A → Bool) (f : A → A) (xs : List A) {x : A}
      → ((y : A) → p y ≡ true → p (f y) ≡ true)
      → find_if p xs ≡ some x
      → find_if p (update_if p f xs) ≡ some (f x)
  find_if-updated p f [] keeps h = cc
  find_if-updated p f (y ∷ xs) {x} keeps h = elim (Bool-cases (p y)) [
    | inl e ↦ let same : y ≡ x = cc in rw (e, keeps y e, same) refl
    | inr e ↦ rw (e, e) (find_if-updated p f xs keeps (cc))
  ]

  pub find_if-Mem :
      (p : A → Bool) (xs : List A) {x : A} → find_if p xs ≡ some x → Memᴰ x xs × (p x ≡ true)
  find_if-Mem p [] h = cc
  find_if-Mem p (y ∷ xs) {x} h = elim (Bool-cases (p y)) [
    | inl e ↦ let same : x ≡ y = cc in (Memᴰ.head same, rw same e)
    | inr e ↦ let (m, passes) = find_if-Mem p xs (cc) in (Memᴰ.tail m, passes)
  ]

  pub find_if-none :
      (p : A → Bool) (xs : List A) {x : A} → find_if p xs ≡ none → Memᴰ x xs → p x ≡ false
  find_if-none p [] h m = elim m [ ]
  find_if-none p (y ∷ xs) h (Memᴰ.head e) = elim (Bool-cases (p y)) [
    | inl k ↦ absurd (cc)
    | inr k ↦ rw e k
  ]
  find_if-none p (y ∷ xs) h (Memᴰ.tail m) = elim (Bool-cases (p y)) [
    | inl k ↦ absurd (cc)
    | inr k ↦ find_if-none p xs (cc) m
  ]

  -- An UPDATE where no row passes.
  pub update_if-idle :
      (p : A → Bool) (f : A → A) (xs : List A) → count_if p xs ≡ 0 → update_if p f xs ≡ xs
  update_if-idle p f [] h = refl
  update_if-idle p f (x ∷ xs) h = elim (Bool-cases (p x)) [
    | inl e ↦ absurd (ground (arith, e, h))
    | inr e ↦ rw (e, update_if-idle p f xs (ground (arith, e, h))) refl
  ]

  -- The rows that an UPDATE has matched pass a test after it.
  pub count_if-updated :
      (p q : A → Bool) (f : A → A) (xs : List A)
      → ((x : A) → p x ≡ true → q (f x) ≡ true)
      → count_if p xs ≤ count_if q (update_if p f xs)
  count_if-updated p q f [] passes = omega arith
  count_if-updated p q f (x ∷ xs) passes =
      ground (arith, passes x, count_if-updated p q f xs passes)

  -- An entry that an UPDATE does not match stays.
  pub update_if-Mem :
      (p : A → Bool) (f : A → A) {x : A} (xs : List A)
      → Memᴰ x xs
      → p x ≡ false
      → Memᴰ x (update_if p f xs)
  update_if-Mem p f [] m h = elim m [ ]
  update_if-Mem p f (y ∷ xs) (Memᴰ.head e) h =
      let other : p y ≡ false = rw (sym e) h in rw other (Memᴰ.head e)
  update_if-Mem p f (y ∷ xs) (Memᴰ.tail m) h = Memᴰ.tail (update_if-Mem p f xs m h)

  kept-passes :
      (p : A → Bool) (b : Bool) {x y : A} (rest : List A)
      → p y ≡ b
      → (Memᴰ x rest → p x ≡ true)
      → Memᴰ x (if b then y ∷ rest else rest)
      → p x ≡ true
  kept-passes p true rest e next (Memᴰ.head same) = rw same e
  kept-passes p true rest e next (Memᴰ.tail n) = next n
  kept-passes p false rest e next n = next n

  -- What a filter keeps passes its test.
  pub keep_if-passes : (p : A → Bool) {x : A} (xs : List A) → Memᴰ x (keep_if p xs) → p x ≡ true
  keep_if-passes p [] m = elim m [ ]
  keep_if-passes p (y ∷ xs) m =
      kept-passes p (p y) (keep_if p xs) refl (λ n. keep_if-passes p xs n) m

  -- SUM(…)
  abbrev pub total : (A → ℕ) → List A → ℕ
  total w [] = 0
  total w (x ∷ xs) = w x + total w xs
