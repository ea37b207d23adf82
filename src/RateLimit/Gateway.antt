-- ===== src/RateLimit/Gateway.antt =====
-- api_gateway/rate_limiter.py: `InMemoryRateLimiter` and the ceilings of the API keys.
use gdi_backend.Prelude.Texts.{Text}
use gdi_backend.Prelude.{
  ℕ, ◌+◌, ◌-◌, ◌*◌, ◌/◌, ◌≤◌, ◌≡◌, refl, ap, Bool, true, false, Option, none, some, List, [], ◌∷◌,
  ◌++◌, arith, ltb, length, count_if, max, if◌then◌else◌, Bool-cases, inl, inr,
}
use gdi_backend.RateLimit.Window.{
  Table, get, put, recent, first_or, get-put_self, length-recent, recent-recent, recent-append,
  length-recent_count,
}

pub data KeyType : Type 0 where
  backup api public tad other : KeyType

-- MAX_RATE_LIMIT_BY_KEY_TYPE, with DEFAULT_MAX_RATE_LIMIT for a type that is not listed
unfoldable pub max_rate_limit : KeyType → ℕ
max_rate_limit backup = 120
max_rate_limit _ = 200_000

-- `cap_rate_limit`; NULL and 0 go through.
unfoldable pub cap_rate_limit : Option ℕ → KeyType → Option ℕ
unfolding max_rate_limit
cap_rate_limit none k = none
cap_rate_limit (some value) k =
    if ltb 0 value
    then (if ltb (max_rate_limit k) value then some (max_rate_limit k) else some value)
    else some value

-- `tuple[bool, int]`, or RateLimitExceeded with its delay.
pub data Answer : Type 0 where
  remaining : ℕ → Answer
  exceeded : ℕ → Answer

abbrev pub second : ℕ
second = 1_000_000

-- `InMemoryRateLimiter.check`: a request over the limit does not stay in the list.
unfoldable pub check : ℕ → Text → ℕ → ℕ → Table → Answer × Table
check now key limit window t =
    let kept = recent now (window * second) (get key t) in
    let timestamps = kept ++ now ∷ [] in
    if ltb limit (length timestamps)
    then (
      exceeded (max 1 ((first_or now timestamps + window * second - now) / second)),
      put key kept t,
    )
    else (remaining (limit - length timestamps), put key timestamps t)

-- `not ts or ts[-1] < now - 120`
abbrev stale : ℕ → List ℕ → Bool
stale now [] = true
stale now (t ∷ []) = ltb (t + 120 * second) now
stale now (t ∷ u ∷ ts) = stale now (u ∷ ts)

-- `cleanup`
unfoldable pub cleanup : ℕ → Table → Table
cleanup now [] = []
cleanup now ((k, ts) ∷ rest) =
    let others = cleanup now rest in if stale now ts then others else (k, ts) ∷ others

-- The times of the requests of a key that were let through, in a run of checks with one limit and
-- one window, and the table that the run leaves.
unfoldable pub run_checks : Text → ℕ → ℕ → List ℕ → Table → List ℕ → List ℕ × Table
run_checks key limit window [] t admitted = (admitted, t)
run_checks key limit window (now ∷ times) t admitted =
    let (answer, t') = check now key limit window t in
    run_checks key limit window times t'
      (elim answer [ remaining n ↦ admitted ++ now ∷ [] | exceeded r ↦ admitted ])

-- The clock does not go back: each time is at or after the one before.
abbrev pub Ascending : ℕ → List ℕ → Type 0
Ascending from [] = Unit
Ascending from (t ∷ ts) = (from ≤ t) × Ascending t ts

-- What the table holds of a key: at any time from `now` on, the requests let through that are in
-- the window, and at most `limit` of them.
pub record Tracks (key : Text) (limit window now : ℕ) (t : Table) (admitted : List ℕ) : Type 0 where
  same :
      (later : ℕ)
      → now ≤ later
      → recent later (window * second) (get key t) ≡ recent later (window * second) admitted
  fits : length (get key t) ≤ limit

pub keep_recent-Tracks :
    (key : Text) (limit window now : ℕ) (t : Table) (admitted : List ℕ) {past : ℕ}
    → past ≤ now
    → Tracks key limit window past t admitted
    → Tracks key limit window now (put key (recent now (window * second) (get key t)) t) admitted
keep_recent-Tracks key limit window now t admitted h i = record {
  same = λ later l.
      rw
        (
          get-put_self key (recent now (window * second) (get key t)) t,
          recent-recent now later (window * second) (get key t) l,
        )
        (i.same later (omega arith));
  fits =
      rw (get-put_self key (recent now (window * second) (get key t)) t)
        (ground (arith, length-recent now (window * second) (get key t), i.fits));
}

pub append_now-Tracks :
    (key : Text) (limit window now : ℕ) (t : Table) (admitted : List ℕ) {past : ℕ}
    → past ≤ now
    → Tracks key limit window past t admitted
    → ltb limit (length (recent now (window * second) (get key t) ++ now ∷ [])) ≡ false
    → Tracks key limit window now
        (put key (recent now (window * second) (get key t) ++ now ∷ []) t)
        (admitted ++ now ∷ [])
append_now-Tracks key limit window now t admitted h i fine = record {
  same = λ later l.
      rw
        (
          get-put_self key (recent now (window * second) (get key t) ++ now ∷ []) t,
          recent-append later (window * second) (recent now (window * second) (get key t))
              (now ∷ []),
          recent-append later (window * second) admitted (now ∷ []),
          recent-recent now later (window * second) (get key t) l,
          i.same later (omega arith),
        )
        refl;
  fits =
      rw (get-put_self key (recent now (window * second) (get key t) ++ now ∷ []) t)
        (ground (arith, fine));
}

check-Tracks :
    (key : Text) (limit window now : ℕ) (t : Table) (admitted : List ℕ) {past : ℕ}
    → past ≤ now
    → Tracks key limit window past t admitted
    → let (answer, t') = check now key limit window t in
      Tracks key limit window now t'
        (elim answer [ remaining n ↦ admitted ++ now ∷ [] | exceeded r ↦ admitted ])
unfolding check
check-Tracks key limit window now t admitted h i =
    elim (Bool-cases (ltb limit (length (recent now (window * second) (get key t) ++ now ∷ [])))) [
      | inl over ↦ rw over (keep_recent-Tracks key limit window now t admitted h i)
      | inr fine ↦ rw fine (append_now-Tracks key limit window now t admitted h i fine)
    ]

-- The last time of a run, from a first time on.
abbrev pub end_of : ℕ → List ℕ → ℕ
end_of from [] = from
end_of from (t ∷ ts) = end_of t ts

run_checks-Tracks :
    (key : Text) (limit window : ℕ) (times : List ℕ) (t : Table) (admitted : List ℕ) {past : ℕ}
    → Ascending past times
    → Tracks key limit window past t admitted
    → let (admitted', t') = run_checks key limit window times t admitted in
      Tracks key limit window (end_of past times) t' admitted'
unfolding run_checks
run_checks-Tracks key limit window [] t admitted a i = i
run_checks-Tracks key limit window (now ∷ times) t admitted (h, a) i =
    run_checks-Tracks key limit window times ((check now key limit window t).1)
      (elim ((check now key limit window t).0) [
        | remaining n ↦ admitted ++ now ∷ []
        | exceeded r ↦ admitted
      ])
      a (check-Tracks key limit window now t admitted h i)

-- For any key, limit and window, and any times of requests that do not go back, starting from an
-- empty table: at the end of the run, and at any later time, at most `limit` of the requests that
-- were let through are inside the window. Requests that were refused do not count against the key.
pub run_checks-bound :
    (key : Text) (limit window : ℕ) (times : List ℕ) (later : ℕ)
    → Ascending 0 times
    → end_of 0 times ≤ later
    → count_if (λ t. ltb later (t + window * second)) ((run_checks key limit window times [] []).0)
      ≤ limit
run_checks-bound key limit window times later a h =
    let i =
      run_checks-Tracks key limit window times [] [] {past = 0} a
        (record { same = λ l e. refl; fits = omega arith }) in
    let admitted = (run_checks key limit window times [] []).0 in
    let t = (run_checks key limit window times [] []).1 in
    ground (
      arith,
      i.fits,
      length-recent later (window * second) (get key t),
      ap length (i.same later h),
      length-recent_count later (window * second) admitted,
    )
