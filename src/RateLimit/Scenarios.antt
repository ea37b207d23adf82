-- ===== src/RateLimit/Scenarios.antt =====
-- A key that may make two requests a minute makes three; an address and two time stamps.
use gdi_backend.Prelude.{
  ℕ, ◌<◌, Bool, true, false, none, some, ◌*◌, ◌+◌, ◌≤◌, ◌≡◌, refl, List, [], ◌∷◌, arith, ltb,
  count_if,
}
use gdi_backend.Prelude.Texts.{codes, strip, before_comma}
use gdi_backend.RateLimit.Address.{
  Bucket, Call, expire_fails, answers, admitted_on, admitted_on-bound,
}
use gdi_backend.RateLimit.Stamps.{Settings, Stamps, up, try_consume_dts_slot, effective_cap}
use gdi_backend.RateLimit.Reserve.{run_stamps, run_stamps-reserve}
use gdi_backend.RateLimit.Middleware.{
  other_source, Request, Limits, Middleware, pipeline_answers, too_many, client_ip, dispatch_memory,
  dispatch,
}
use gdi_backend.RateLimit.InMemory.{Event, request, timer}
use gdi_backend.RateLimit.Degraded.{Flight}
use gdi_backend.RateLimit.Gateway.{check, run_checks, run_checks-bound, second}

abbrev three_times : List ℕ
three_times = 1_000_000 ∷ 2_000_000 ∷ 3_000_000 ∷ []

run_checks_test : (run_checks (codes "k") 2 60 three_times [] []).0 ≡ 1_000_000 ∷ 2_000_000 ∷ []
unfolding run_checks check
run_checks_test = refl

run_checks-bound_example :
    count_if
      (λ t. ltb 4_000_000 (t + 60 * second))
      ((run_checks (codes "k") 2 60 three_times [] []).0)
    ≤ 2
run_checks-bound_example =
    run_checks-bound (codes "k") 2 60 three_times 4_000_000
      (omega arith, (omega arith, (omega arith, tt))) (omega arith)

abbrev login : Bucket
login = record { bucket_name = codes "login"; limit = 1; window_seconds = 60 }

abbrev two_calls : List Call
two_calls =
    record { redis = answers; now = 1_000_000; ip = codes "1.1.1.1" }
    ∷ record { redis = expire_fails; now = 2_000_000; ip = codes "1.1.1.1" }
    ∷ []

admitted_on-bound_example : admitted_on login (codes "login:1.1.1.1", 0) two_calls [] ≤ 1
admitted_on-bound_example =
    admitted_on-bound login (codes "login:1.1.1.1", 0) two_calls (omega arith)

abbrev settings : Settings
settings = record { max_per_minute = 60; degraded_divisor = 4; reserved_percent = 5 }

abbrev no_stamps : Stamps
no_stamps = record { minute = none; count = 0; shared = [] }

abbrev two_requests : List (ℕ × Bool)
two_requests = (1_000_000, false) ∷ (2_000_000, true) ∷ []

run_stamps-reserve_example :
    let ((p, n), s) = run_stamps settings two_requests 0 0 no_stamps in
    let top = effective_cap settings 60 false in
    (p + n ≤ 60)
    × (n ≤ top)
    × (p + top < 60 → (try_consume_dts_slot settings up 3_000_000 true s).0 ≡ true)
run_stamps-reserve_example =
    run_stamps-reserve settings 0 two_requests no_stamps 3_000_000 refl (refl, (refl, tt)) refl

-- Redis in use; and after an error of Redis at 100 s.
abbrev redis_state : Middleware
redis_state = record {
  connected = true;
  requests = [];
  last_cleanup = 0;
  last_redis_error_at = 0;
  timers = [];
  counters = [];
}

abbrev degraded_state : Middleware
degraded_state = record redis_state {
  connected = false;
  last_redis_error_at = 100 * second;
  timers = 130 * second ∷ [];
}

abbrev limits : Limits
limits = record { per_address = 1; per_user = 180 }

abbrev visit : Request
visit = record {
  is_options = false;
  path = codes "/cases";
  fly_client_ip = none;
  forwarded_for = some (codes "1.1.1.1, 10.0.0.1");
  host = none;
  auth_source = other_source;
  tenant_user_id = none;
}

abbrev in_flight : List Flight
in_flight = record { now = 101 * second; identity = codes "2.2.2.2"; limit = 1; runs = false } ∷ []

abbrev later_events : List Event
later_events =
    request limits pipeline_answers (200 * second) visit ∷ timer (300 * second) true true ∷ []

-- The second request of a minute is refused for what is left of it.
second_refused :
    (dispatch limits pipeline_answers
      (210 * second)
      visit
      (dispatch limits pipeline_answers (200 * second) visit degraded_state).1).0
    ≡ too_many 1 260 50
unfolding dispatch dispatch_memory client_ip strip before_comma
second_refused = refl
