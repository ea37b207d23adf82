-- ===== src/RateLimit/Reserve.antt =====
-- The count of a minute's time stamps in Redis (services/shared/dts_rate_limiter.py).
use native.Mathlib.Nat.{div-mul-le_self, mul-le-mul_left}
use gdi_backend.Prelude.Texts.{codes}
use gdi_backend.Prelude.{
  ℕ, suc, ◌+◌, ◌-◌, ◌*◌, ◌<◌, ◌≤◌, ◌≡◌, refl, sym, subst, ◌∙◌, Bool, true, false, ◌&&◌, not, none,
  some, List, [], ◌∷◌, arith, ltb, if◌then◌else◌, Bool-cases, Option-cases, inl, inr,
}
use gdi_backend.RateLimit.Counters.{
  second, Slot, Key, Counters, is_live, slot_of, set_slot, read, same_window, slot_of-set_slot_self,
}
use gdi_backend.RateLimit.Stamps.{
  Settings, Stamps, up, current_minute, effective_cap, key_of, counted, settle, incr_check,
  try_consume_dts_slot,
}

-- The slot of a minute counts the stamps granted, and is there through the minute.
record IsExact (k : Key) (granted : ℕ) (cs : Counters) : Type 0 where
  starts : slot_of k cs ≡ none → granted ≡ 0
  exact : (s : Slot) → slot_of k cs ≡ some s → s.count ≡ granted
  lasts :
      (s : Slot) (now : ℕ) → slot_of k cs ≡ some s → current_minute now ≡ k.1 → is_live now s ≡ true

same_slot : {s t : Slot} → some s ≡ some t → s ≡ t
same_slot e = cc

no_slot : {s : Slot} (n : ℕ) → some s ≡ none → n ≡ 0
no_slot n e = cc

set_slot-IsExact :
    (k : Key) (s : Slot) (cs : Counters)
    → ((now : ℕ) → current_minute now ≡ k.1 → is_live now s ≡ true)
    → IsExact k s.count (set_slot k s cs)
set_slot-IsExact k s cs l = record {
  starts = λ e. no_slot s.count (sym (slot_of-set_slot_self k s cs) ∙ e);
  exact = λ t e.
      subst (λ t. t.count ≡ s.count) (same_slot (sym (slot_of-set_slot_self k s cs) ∙ e)) refl;
  lasts = λ t now e w.
      subst (λ t. is_live now t ≡ true) (same_slot (sym (slot_of-set_slot_self k s cs) ∙ e))
        (l now w);
}

-- The slot that INCR and EXPIRE leave counts one more, and lasts.
counted_next :
    (now granted : ℕ) (cs : Counters)
    → IsExact (key_of now) granted cs
    → let s = counted now (read now (key_of now) cs) in
      (s.count ≡ suc granted)
      × ((later : ℕ) → current_minute later ≡ current_minute now → is_live later s ≡ true)
counted_next now granted cs i = elim (Option-cases (slot_of (key_of now) cs)) [
  | inl e ↦ rw e (
    ground (arith, i.starts e),
    λ later w. ground (arith, same_window (60 * second) later now (omega arith) w),
  )
  | inr (s, e) ↦
      rw (e, i.lasts s now e refl)
        (
          ground (arith, i.exact s e),
          λ later w.
              ground
                (arith, i.lasts s later e w, same_window (60 * second) later now (omega arith) w),
        )
]

-- What the script does with the slot: it is kept, or DECR takes the count back.
settled :
    (k : Key) (top granted : ℕ) (s : Slot) (cs : Counters)
    → s.count ≡ suc granted
    → ((now : ℕ) → current_minute now ≡ k.1 → is_live now s ≡ true)
    → let r = settle top k s cs in
      (r.0 ≡ (if ltb granted top then suc granted else 0))
      × IsExact k (if ltb granted top then suc granted else granted) r.1
settled k top granted s cs c l = elim (Bool-cases (ltb granted top)) [
  | inl room ↦
      let fits : ltb top s.count ≡ false = ground (arith, room, c) in
      rw (room, fits) (c, subst (λ n. IsExact k n (set_slot k s cs)) c (set_slot-IsExact k s cs l))
  | inr full ↦
      let over : ltb top s.count ≡ true = ground (arith, full, c) in
      let back = record s { count = s.count - 1 } in
      rw (full, over)
        (
          refl,
          subst (λ n. IsExact k n (set_slot k back cs)) (omega (arith, c))
              (set_slot-IsExact k back cs l),
        )
]

-- The script answers the count when fewer than the top were granted, and 0 otherwise.
incr_check-IsExact :
    (now top granted : ℕ) (cs : Counters)
    → IsExact (key_of now) granted cs
    → let (n, cs') = incr_check now top cs in
      (n ≡ (if ltb granted top then suc granted else 0))
      × IsExact (key_of now) (if ltb granted top then suc granted else granted) cs'
unfolding incr_check
incr_check-IsExact now top granted cs i =
    let (one_more, lasting) = counted_next now granted cs i in
    settled (key_of now) top granted (counted now (read now (key_of now) cs)) cs one_more lasting

answer_lem :
    (n granted top : ℕ)
    → n ≡ (if ltb granted top then suc granted else 0)
    → ltb 0 n ≡ ltb granted top
answer_lem n granted top h = ground (arith, h)

-- A request is granted exactly when fewer than its top were, and then counts.
try_consume-IsExact :
    (st : Settings) (now granted : ℕ) (priority : Bool) (s : Stamps)
    → IsExact (key_of now) granted s.shared
    → let (got, s') = try_consume_dts_slot st up now priority s in
      (got ≡ ltb granted (effective_cap st st.max_per_minute priority))
      × IsExact (key_of now) (if got then suc granted else granted) s'.shared
unfolding try_consume_dts_slot
try_consume-IsExact st now granted priority s i =
    let top = effective_cap st st.max_per_minute priority in
    let (answer, next) = incr_check-IsExact now top granted s.shared i in
    let same = answer_lem (incr_check now top s.shared).0 granted top answer in (same, rw same next)

-- The requests of one minute, with the stamps granted with priority and without.
abbrev pub InMinute : ℕ → List (ℕ × Bool) → Type 0
InMinute m [] = Unit
InMinute m ((now, priority) ∷ rs) = (current_minute now ≡ m) × InMinute m rs

unfoldable pub run_stamps : Settings → List (ℕ × Bool) → ℕ → ℕ → Stamps → (ℕ × ℕ) × Stamps
run_stamps st [] p n s = ((p, n), s)
run_stamps st ((now, priority) ∷ rs) p n s =
    let (got, s') = try_consume_dts_slot st up now priority s in
    run_stamps st rs (if priority && got then suc p else p)
      (if not priority && got then suc n else n) s'

le_hundred : (r : ℕ) → 100 - r ≤ 100
le_hundred r = omega arith

effective_cap_le :
    (st : Settings) (base : ℕ) (priority : Bool) → effective_cap st base priority ≤ base
unfolding effective_cap
effective_cap_le st base true = omega arith
effective_cap_le st base false = omega (
  arith,
  div-mul-le_self (base * (100 - st.reserved_percent)) 100,
  mul-le-mul_left base (le_hundred st.reserved_percent),
)

record Keeps (st : Settings) (m p n : ℕ) (s : Stamps) : Type 0 where
  exact : IsExact (codes "escri_dts_rl", m) (p + n) s.shared
  total : p + n ≤ st.max_per_minute
  others : n ≤ effective_cap st st.max_per_minute false

one_request-Keeps :
    (st : Settings) (now p n : ℕ) (priority : Bool) (s : Stamps)
    → Keeps st (current_minute now) p n s
    → let (got, s') = try_consume_dts_slot st up now priority s in
      Keeps st
        (current_minute now)
        (if priority && got then suc p else p)
        (if not priority && got then suc n else n)
        s'
one_request-Keeps st now p n true s k =
    let (same, next) = try_consume-IsExact st now (p + n) true s k.exact in
    let s' = (try_consume_dts_slot st up now true s).1 in
    elim (Bool-cases (try_consume_dts_slot st up now true s).0) [
      | inl granted ↦ rw granted record {
        exact = subst (λ g. IsExact (key_of now) g s'.shared) (ground (arith, granted)) next;
        total = ground (arith, granted, same, k.total, effective_cap_le st st.max_per_minute true);
        others = k.others;
      }
      | inr refused ↦ rw refused record {
        exact = subst (λ g. IsExact (key_of now) g s'.shared) (ground (arith, refused)) next;
        total = ground (arith, refused, same, k.total, effective_cap_le st st.max_per_minute true);
        others = k.others;
      }
    ]
one_request-Keeps st now p n false s k =
    let (same, next) = try_consume-IsExact st now (p + n) false s k.exact in
    let s' = (try_consume_dts_slot st up now false s).1 in
    elim (Bool-cases (try_consume_dts_slot st up now false s).0) [
      | inl granted ↦ rw granted record {
        exact = subst (λ g. IsExact (key_of now) g s'.shared) (ground (arith, granted)) next;
        total = ground (arith, granted, same, k.total, effective_cap_le st st.max_per_minute false);
        others = ground (arith, granted, same);
      }
      | inr refused ↦ rw refused record {
        exact = subst (λ g. IsExact (key_of now) g s'.shared) (ground (arith, refused)) next;
        total = ground (arith, refused, same, k.total, effective_cap_le st st.max_per_minute false);
        others = k.others;
      }
    ]

run_stamps-Keeps :
    (st : Settings) (m : ℕ) (rs : List (ℕ × Bool)) (p n : ℕ) (s : Stamps)
    → InMinute m rs
    → Keeps st m p n s
    → let ((p', n'), s') = run_stamps st rs p n s in Keeps st m p' n' s'
unfolding run_stamps
run_stamps-Keeps st m [] p n s i k = k
run_stamps-Keeps st m ((now, priority) ∷ rs) p n s (e, i) k =
    let (got, s') = try_consume_dts_slot st up now priority s in
    run_stamps-Keeps st m rs (if priority && got then suc p else p)
      (if not priority && got then suc n else n) s' i
      (subst
        (λ m.
          Keeps st m (if priority && got then suc p else p)
            (if not priority && got then suc n else n) s')
        e (one_request-Keeps st now p n priority s (subst (λ m. Keeps st m p n s) (sym e) k)))

-- In a minute of which nothing was granted, with Redis in reach, whatever requests came: at most
-- `max_per_minute` stamps are granted, and without priority at most the cap without priority; and
-- while fewer than the difference were granted with priority, a request with priority is granted.
pub run_stamps-reserve :
    (st : Settings) (m : ℕ) (rs : List (ℕ × Bool)) (s : Stamps) (now : ℕ)
    → slot_of (codes "escri_dts_rl", m) s.shared ≡ none
    → InMinute m rs
    → current_minute now ≡ m
    → let ((p, n), s') = run_stamps st rs 0 0 s in
      let top = effective_cap st st.max_per_minute false in
      (p + n ≤ st.max_per_minute)
      × (n ≤ top)
      × (p + top < st.max_per_minute → (try_consume_dts_slot st up now true s').0 ≡ true)
unfolding effective_cap
run_stamps-reserve st m rs s now fresh i e =
    let ((p, n), s') = run_stamps st rs 0 0 s in
    let k = run_stamps-Keeps st m rs 0 0 s i (record {
      exact = record {
        starts = λ h. refl;
        exact = λ t h. no_slot t.count (sym h ∙ fresh);
        lasts = λ t later h w. cc;
      };
      total = omega arith;
      others = omega arith;
    }) in
    let here = subst (λ m. IsExact (codes "escri_dts_rl", m) (p + n) s'.shared) (sym e) k.exact in
    let same = (try_consume-IsExact st now (p + n) true s' here).0 in
    (k.total, k.others, λ room. ground (arith, same, room, k.others))
