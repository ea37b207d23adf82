-- ===== src/Breaker/Scenarios.antt =====
-- A breaker with the default constants (threshold 5, window 30 s, cooldown 30 s), from
-- services/shared/notary_breaker.py.
use gdi_backend.Prelude.{ℕ, ◌+◌, ◌*◌, ◌≤◌, ◌≡◌, refl, true, false, List, [], ◌∷◌, arith}
use gdi_backend.Breaker.{
  closed, open_state, Link, absent, failing, up, Env, second, blocked, allowed, get_state,
  open_breaker, check_breaker_before_call, record_notary_failure,
}
use gdi_backend.Breaker.Laws.{open-blocks}
use gdi_backend.Breaker.Opening.{IsSteady, fail_all, opens-at-threshold}
use gdi_backend.Breaker.Recovery.{
  fresh, Event, check, failure, success, run_events, run_events-recovers,
}

abbrev at : Link → ℕ → Env
at link n = record { link = link; now = n * second; threshold = 5; window = 30; cooldown = 30 }

open-blocks_example :
    let opened = open_breaker (at up 100) fresh in
    (r : ℕ) × (check_breaker_before_call (at failing 120) true opened ≡ (blocked r, opened))
    × (1 ≤ r)
    × (r ≤ 30)
open-blocks_example =
    open-blocks (at up 100) (at failing 120) fresh true refl (omega arith) (omega arith)
      (omega arith) (omega arith)

steady : (n : ℕ) → 100 ≤ n → n * second + 1 ≤ 130 * second → IsSteady 5 30 (100 * second) (at up n)
steady n low high = record {
  link = refl;
  threshold = refl;
  window = refl;
  after = omega arith;
  before = omega arith;
}

abbrev four : List Env
four = at up 100 ∷ at up 105 ∷ at up 110 ∷ at up 110 ∷ []

opens-at-threshold_example :
    ((get_state (at up 120) (fail_all four fresh)).0 ≡ closed)
    × ((get_state (at up 120) (record_notary_failure (at up 120) true (fail_all four fresh))).0
        ≡ open_state)
opens-at-threshold_example =
    opens-at-threshold 30 (100 * second) four (at up 120) fresh
      (
        steady 100 (omega arith) (omega arith),
        (
          steady 105 (omega arith) (omega arith),
          (steady 110 (omega arith) (omega arith), (steady 110 (omega arith) (omega arith), tt)),
        ),
      )
      (steady 120 (omega arith) (omega arith)) (record { closed_still = refl; count = refl })

abbrev outage : List (Env × Event)
outage =
    (at up 100, failure true)
    ∷ (at absent 101, failure true)
    ∷ (at up 102, check false)
    ∷ (at failing 103, success)
    ∷ []

run_events-recovers_example :
    let (v, b') = check_breaker_before_call (at up 150) true (run_events outage fresh) in
    (v ≡ allowed) × ((get_state (at up 150) b').0 ≡ closed)
run_events-recovers_example =
    run_events-recovers (103 * second) outage (at up 150) (omega arith) (omega arith) (omega arith)
