-- ===== src/RateLimit/Counters.antt =====
-- The counters that shared/ip_rate_limit.py and services/shared/dts_rate_limiter.py keep in Redis:
-- INCR, DECR and EXPIRE on a key that a name and the number of a window make. A key expires by the clock
-- of the caller, which is taken to be that of Redis.
use native.Mathlib.Nat.{div-add-mod, mod-lt}
use gdi_backend.Prelude.Texts.{Text, text_eq, text_eq_refl, text_eq→eq}
use gdi_backend.Prelude.{
  ℕ, suc, ◌+◌, ◌*◌, ◌/◌, ◌<◌, ◌≡◌, refl, ap, Bool, true, false, ◌&&◌, Option, none, some, List, [],
  ◌∷◌, arith, ltb, ◌==◌, ==_refl, ==_iff, if◌then◌else◌, Bool-cases, inl, inr,
}

abbrev pub second : ℕ
second = 1_000_000

pub record Slot : Type 0 where
  pub count : ℕ
  pub expires : Option ℕ

abbrev pub Key : Type 0
Key = Text × ℕ

abbrev pub key_eq : Key → Key → Bool
key_eq (s, m) (t, n) = text_eq s t && m == n

abbrev pub Counters : Type 0
Counters = List (Key × Slot)

-- A key with an expiry is there until the clock reaches it.
abbrev pub is_live : ℕ → Slot → Bool
is_live now s = elim s.expires [ none ↦ true | some e ↦ ltb now e ]

-- The slot of a key, expired or not.
abbrev pub slot_of : Key → Counters → Option Slot
slot_of k [] = none
slot_of k ((j, s) ∷ rest) = if key_eq j k then some s else slot_of k rest

abbrev pub set_slot : Key → Slot → Counters → Counters
set_slot k s [] = (k, s) ∷ []
set_slot k s ((j, r) ∷ rest) = if key_eq j k then (k, s) ∷ rest else (j, r) ∷ set_slot k s rest

abbrev only_live : ℕ → Option Slot → Option Slot
only_live now none = none
only_live now (some s) = if is_live now s then some s else none

abbrev pub read : ℕ → Key → Counters → Option Slot
read now k cs = only_live now (slot_of k cs)

-- INCR makes a missing key, with no expiry, and keeps the expiry of one that is there.
abbrev pub incremented : Option Slot → Slot
incremented none = record { count = 1; expires = none }
incremented (some s) = record s { count = suc s.count }

key_eq_refl : (k : Key) → key_eq k k ≡ true
key_eq_refl (s, m) = rw (text_eq_refl s, ==_refl m)

key_eq_trans : (i j k : Key) → key_eq i j ≡ true → key_eq i k ≡ key_eq j k
key_eq_trans (s, m) (t, n) (u, l) h =
    rw (text_eq→eq s t (ground (arith, h)), (==_iff m n).0 (ground (arith, h))) refl

pub slot_of-set_slot_self :
    (k : Key) (s : Slot) (cs : Counters) → slot_of k (set_slot k s cs) ≡ some s
slot_of-set_slot_self k s [] = rw (key_eq_refl k)
slot_of-set_slot_self k s ((j, r) ∷ rest) = elim (Bool-cases (key_eq j k)) [
  | inl same ↦ rw same (rw (key_eq_refl k))
  | inr other ↦ rw other (rw other (slot_of-set_slot_self k s rest))
]

pub slot_of-set_slot_other :
    (k j : Key) (s : Slot) (cs : Counters)
    → key_eq j k ≡ false
    → slot_of k (set_slot j s cs) ≡ slot_of k cs
slot_of-set_slot_other k j s [] ne = rw ne refl
slot_of-set_slot_other k j s ((i, r) ∷ rest) ne = elim (Bool-cases (key_eq i j)) [
  | inl same ↦ rw same (rw (key_eq_trans i j k same, ne) refl)
  | inr differs ↦ rw differs (rw (slot_of-set_slot_other k j s rest ne) refl)
]

-- Two times with one quotient are less than the divisor apart.
pub same_window : (w m n : ℕ) → 0 < w → m / w ≡ n / w → m < n + w
same_window w m n p h =
    omega (arith, div-add-mod m w, div-add-mod n w, ap (λ q. w * q) h, mod-lt m p)

pub key_eq→eq : (j k : Key) → key_eq j k ≡ true → j ≡ k
key_eq→eq (s, m) (t, n) h =
    rw (text_eq→eq s t (ground (arith, h)), (==_iff m n).0 (ground (arith, h))) refl
