-- ===== src/Numbering/Format.antt =====
-- The text of an official number, `f"{tipo}-{year}-{n:08d}-{ciudad}-{depto}"` (shared/numbering.py).
-- A text is the list of its code points.
pub use gdi_backend.Prelude.Texts.{Text}
use gdi_backend.Prelude.{
  ℕ, zero, suc, ◌+◌, ◌-◌, ◌*◌, ◌/◌, ◌%◌, ◌<◌, ◌≡◌, refl, ◌∙◌, [], ◌∷◌, ◌++◌, arith, ltb,
  if◌then◌else◌, length,
}

-- Decimal digits, most significant first. Each round divides by ten, so `suc n` rounds are enough.
digits_fuel : ℕ → ℕ → Text
digits_fuel zero n = []
digits_fuel (suc f) n =
    let front = digits_fuel f (n / 10) in
    if ltb n 10 then (48 + n) ∷ [] else front ++ (48 + n % 10) ∷ []

pub decimal : ℕ → Text
unfolding digits_fuel
decimal n = digits_fuel (suc n) n

pub zeros : ℕ → Text
zeros zero = []
zeros (suc n) = 48 ∷ zeros n

-- `{n:0wd}`
pub pad : ℕ → ℕ → Text
unfolding decimal zeros
pad w n = let ds = decimal n in zeros (w - length ds) ++ ds

unfoldable pub official_number : ℕ → Text → ℕ → ℕ → Text → Text → Text
unfolding pad
official_number width tipo year n city dept =
    tipo ++ (b'-' ∷ decimal year ++ (b'-' ∷ pad width n ++ (b'-' ∷ city ++ (b'-' ∷ dept))))

-- The number that a text of digits stands for.
abbrev pub value_from : ℕ → Text → ℕ
value_from acc [] = acc
value_from acc (d ∷ ds) = value_from (acc * 10 + (d - 48)) ds

value_from-append :
    (a : ℕ) (xs ys : Text) → value_from a (xs ++ ys) ≡ value_from (value_from a xs) ys
value_from-append a [] ys = refl
value_from-append a (x ∷ xs) ys = value_from-append (a * 10 + (x - 48)) xs ys

value-digits : (f n : ℕ) → n < f → value_from 0 (digits_fuel f n) ≡ n
unfolding digits_fuel
value-digits zero n h = elim h [ ]
value-digits (suc f) n h = ground (
  arith,
  value-digits f (n / 10),
  value_from-append 0 (digits_fuel f (n / 10)) ((48 + n % 10) ∷ []),
)

value-zeros : (k : ℕ) (ds : Text) → value_from 0 (zeros k ++ ds) ≡ value_from 0 ds
unfolding zeros
value-zeros zero ds = refl
value-zeros (suc k) ds = value-zeros k ds

-- Zero padding loses nothing: the digits read back as the number, whatever the width.
pub value-pad : (w n : ℕ) → value_from 0 (pad w n) ≡ n
unfolding pad decimal
value-pad w n =
    value-zeros (w - length (decimal n)) (decimal n) ∙ value-digits (suc n) n (omega arith)
