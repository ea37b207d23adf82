-- ===== src/Numbering/Distinct.antt =====
-- Official numbers as texts (shared/numbering.py): different numbers of a type, year, city and
-- department are different texts, beyond the width of the padding too.
use mathlib.Core.List.{append_cancel_left, append_cancel_right}
use gdi_backend.Prelude.{ℕ, ◌≡◌, ◌≢◌, ap, sym, ◌∙◌, [], ◌∷◌, ◌++◌}
use gdi_backend.Numbering.Format.{Text, decimal, pad, official_number, value_from, value-pad}

abbrev rest : Text → Text
rest [] = []
rest (c ∷ t) = t

pub pad-injective : (w m n : ℕ) → pad w m ≡ pad w n → m ≡ n
pad-injective w m n e = sym (value-pad w m) ∙ ap (value_from 0) e ∙ value-pad w n

-- With one width, type, year, city and department, different numbers are different texts, so an
-- official number names one number of its sequence.
pub official_number-distinct :
    (w year : ℕ) (tipo city dept : Text) {m n : ℕ}
    → m ≢ n
    → official_number w tipo year m city dept ≢ official_number w tipo year n city dept
unfolding official_number
official_number-distinct w year tipo city dept {m} {n} ne e =
    let tail = b'-' ∷ city ++ (b'-' ∷ dept) in
    let after_type = ap rest (append_cancel_left tipo _ _ e) in
    let after_year = ap rest (append_cancel_left (decimal year) _ _ after_type) in
    ne (pad-injective w m n (append_cancel_right (pad w m) (pad w n) tail after_year))
