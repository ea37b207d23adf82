-- ===== src/RateLimit/Window.antt =====
-- The sliding window of api_gateway/rate_limiter.py: a table of the times of each key's requests,
-- `defaultdict(list)`.
use gdi_backend.Prelude.Texts.{Text, text_eq, text_eq_refl}
use gdi_backend.Prelude.{
  ℕ, ◌+◌, ◌≤◌, ◌≡◌, refl, List, [], ◌∷◌, ◌++◌, arith, ltb, length, count_if, keep_if, if◌then◌else◌,
  Bool-cases, inl, inr,
}

abbrev pub Table : Type 0
Table = List (Text × List ℕ)

-- `self._requests[key]`: a missing key reads as an empty list.
abbrev pub get : Text → Table → List ℕ
get k [] = []
get k ((j, ts) ∷ rest) = if text_eq j k then ts else get k rest

abbrev pub put : Text → List ℕ → Table → Table
put k v [] = (k, v) ∷ []
put k v ((j, ts) ∷ rest) = if text_eq j k then (k, v) ∷ rest else (j, ts) ∷ put k v rest

pub get-put_self : (k : Text) (v : List ℕ) (t : Table) → get k (put k v t) ≡ v
get-put_self k v [] = rw (text_eq_refl k)
get-put_self k v ((j, ts) ∷ rest) = elim (Bool-cases (text_eq j k)) [
  | inl same ↦ rw same (rw (text_eq_refl k))
  | inr other ↦ rw other (rw other (get-put_self k v rest))
]

-- `[t for t in timestamps if t > window_start]`, with `window_start = now - window`; the list keeps
-- its order. Written without a difference, which would stop at 0.
abbrev pub recent : ℕ → ℕ → List ℕ → List ℕ
recent now window = keep_if (λ t. ltb now (t + window))

abbrev pub first_or : ℕ → List ℕ → ℕ
first_or d [] = d
first_or d (t ∷ ts) = t

pub length-recent : (now window : ℕ) (ts : List ℕ) → length (recent now window ts) ≤ length ts
length-recent now window [] = omega arith
length-recent now window (t ∷ ts) = ground (arith, length-recent now window ts)

-- Looking at the window again later finds what looking at all times finds.
pub recent-recent :
    (now later window : ℕ) (ts : List ℕ)
    → now ≤ later
    → recent later window (recent now window ts) ≡ recent later window ts
recent-recent now later window [] h = refl
recent-recent now later window (t ∷ ts) h = ground (arith, recent-recent now later window ts h)

pub recent-append :
    (now window : ℕ) (ts us : List ℕ)
    → recent now window (ts ++ us) ≡ recent now window ts ++ recent now window us
recent-append now window [] us = refl
recent-append now window (t ∷ ts) us = ground (arith, recent-append now window ts us)

pub length-recent_count :
    (now window : ℕ) (ts : List ℕ)
    → length (recent now window ts) ≡ count_if (λ t. ltb now (t + window)) ts
length-recent_count now window [] = refl
length-recent_count now window (t ∷ ts) = ground (arith, length-recent_count now window ts)
