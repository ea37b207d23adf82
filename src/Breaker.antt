-- ===== src/Breaker.antt =====
-- services/shared/notary_breaker.py: the circuit breaker in front of the signing service. Its state
-- is kept in Redis and mirrored in the process, and a half-open probe decides when it closes.
pub mod Laws
pub mod Opening
pub mod Recovery
mod Scenarios
use gdi_backend.Prelude.{
  ℕ, zero, suc, ◌+◌, ◌-◌, ◌*◌, ◌/◌, ◌≤◌, Bool, true, false, ◌&&◌, ◌||◌, not, Option, none, some,
  ltb, leb, ◌==◌, max, if◌then◌else◌,
}

pub data BreakerState : Type 0 where
  closed open_state half_open : BreakerState

-- The keys of the breaker in Redis. The failure count and the half-open lock expire; a time of
-- expiry stands beside them. Times are in microseconds.
pub record Shared : Type 0 where
  pub state : Option BreakerState
  pub opened_at : Option ℕ
  pub failures : Option (ℕ × Option ℕ)
  pub half_lock : Option ℕ

-- `_fallback`, the mirror in the process.
pub record Local : Type 0 where
  pub state : BreakerState
  pub failure_count : ℕ
  pub first_failure_at : Option ℕ
  pub opened_at : Option ℕ

pub record Breaker : Type 0 where
  pub shared : Shared
  pub local : Local

-- `_get_redis`: no client, a client whose commands raise, or one that answers.
pub data Link : Type 0 where
  absent failing up : Link

-- The constants of config/constants.py, in seconds, the clock, and Redis as it is for all operations
-- of one call.
pub record Env : Type 0 where
  pub link : Link
  pub now : ℕ
  pub threshold : ℕ
  pub window : ℕ
  pub cooldown : ℕ

abbrev pub second : ℕ
second = 1_000_000

abbrev pub or_closed : Option BreakerState → BreakerState
or_closed none = closed
or_closed (some s) = s

-- `_redis_get_state`
unfoldable pub get_state : Env → Breaker → BreakerState × Option ℕ
get_state env b = elim env.link [
  | up ↦ (or_closed b.shared.state, b.shared.opened_at)
  | _ ↦ (b.local.state, b.local.opened_at)
]

abbrev pub local_open : Env → Local
local_open env = record {
  state = open_state;
  opened_at = some env.now;
  failure_count = 0;
  first_failure_at = none;
}

-- `_redis_open_breaker`
unfoldable pub open_breaker : Env → Breaker → Breaker
open_breaker env b = elim env.link [
  | up ↦ record {
    shared = record b.shared {
      state = some open_state;
      opened_at = some env.now;
      half_lock = none;
    };
    local = local_open env;
  }
  | _ ↦ record b { local = local_open env }
]

abbrev pub local_closed : Local
local_closed = record {
  state = closed;
  failure_count = 0;
  first_failure_at = none;
  opened_at = none;
}

-- `_redis_close_breaker`
unfoldable pub close_breaker : Env → Breaker → Breaker
close_breaker env b = elim env.link [
  | up ↦ record {
    shared = record { state = some closed; opened_at = none; failures = none; half_lock = none };
    local = local_closed;
  }
  | _ ↦ record b { local = local_closed }
]

-- `_redis_set_half_open`
unfoldable pub set_half_open : Env → Breaker → Breaker
set_half_open env b = elim env.link [
  | up ↦ record {
    shared = record b.shared { state = some half_open };
    local = record b.local { state = half_open };
  }
  | _ ↦ record b { local = record b.local { state = half_open } }
]

-- A key with an expiry is there until the clock reaches it.
abbrev pub live_lock : ℕ → Option ℕ → Bool
live_lock now none = false
live_lock now (some expires) = ltb now expires

-- `_try_acquire_half_open_lock`: SET NX EX 10; with no Redis the caller goes on.
unfoldable pub try_acquire_half_open_lock : Env → Breaker → Bool × Breaker
try_acquire_half_open_lock env b = elim env.link [
  | up ↦ if live_lock env.now b.shared.half_lock then (false, b) else (
    true,
    record b { shared = record b.shared { half_lock = some (env.now + 10 * second) } },
  )
  | _ ↦ (true, b)
]

abbrev stale_window : Env → Option ℕ → Bool
stale_window env none = true
stale_window env (some first) = ltb (first + env.window * second) env.now

-- `_local_record_failure`
unfoldable pub local_record_failure : Env → Breaker → ℕ × Breaker
local_record_failure env b =
    if stale_window env b.local.first_failure_at
    then (
      1,
      record b { local = record b.local { failure_count = 1; first_failure_at = some env.now } },
    )
    else (
      b.local.failure_count + 1,
      record b { local = record b.local { failure_count = b.local.failure_count + 1 } },
    )

-- The value of the failure count that INCR finds: an expired key counts as 0.
abbrev pub counted : ℕ → Option (ℕ × Option ℕ) → ℕ
counted now none = 0
counted now (some (n, none)) = n
counted now (some (n, some expires)) = if ltb now expires then n else 0

abbrev pub expiry : ℕ → Option (ℕ × Option ℕ) → Option ℕ
expiry now none = none
expiry now (some (n, none)) = none
expiry now (some (n, some expires)) = if ltb now expires then some expires else none

-- EXPIRE on the first failure, and whenever the key has none.
abbrev pub new_expiry : Env → ℕ → Option ℕ → Option ℕ
new_expiry env n none = some (env.now + env.window * second)
new_expiry env n (some e) = if n == 1 then some (env.now + env.window * second) else some e

abbrev pub shared_record_failure : Env → Breaker → ℕ × Breaker
shared_record_failure env b =
    let n = counted env.now b.shared.failures + 1 in
    (
      n,
      record b {
        shared = record b.shared {
          failures = some (n, new_expiry env n (expiry env.now b.shared.failures));
        };
      },
    )

abbrev pub count_failure : Env → Breaker → ℕ × Breaker
count_failure env b = elim env.link [
  | up ↦ shared_record_failure env b
  | _ ↦ local_record_failure env b
]

abbrev pub is_closed : BreakerState → Bool
is_closed closed = true
is_closed _ = false

-- `_redis_record_failure`
unfoldable pub record_failure : Env → Breaker → ℕ × Breaker
unfolding get_state open_breaker local_record_failure
record_failure env b =
    let (n, b') = count_failure env b in
    if leb env.threshold n && is_closed (get_state env b').0
    then (n, open_breaker env b')
    else (n, b')

-- `max(1, int(remaining))`
unfoldable pub get_retry_after : Env → Breaker → ℕ
unfolding get_state
get_retry_after env b = elim (get_state env b).1 [
  | none ↦ env.cooldown
  | some opened ↦ max 1 ((opened + env.cooldown * second - env.now) / second)
]

-- NotaryBreakerOpenError, or the call may go on.
pub data Verdict : Type 0 where
  allowed : Verdict
  blocked : ℕ → Verdict

-- `elapsed < CB_COOLDOWN_SECONDS`, where `opened_at or now` takes NULL and 0 for the present.
abbrev pub cooling : Env → Option ℕ → Bool
cooling env none = ltb 0 env.cooldown
cooling env (some zero) = ltb 0 env.cooldown
cooling env (some opened) = ltb env.now (opened + env.cooldown * second)

-- The probe of /health and what follows from its answer.
abbrev pub probe : Env → Bool → Breaker → Verdict × Breaker
probe env true b = (allowed, close_breaker env (set_half_open env b))
probe env false b = (blocked env.cooldown, open_breaker env (set_half_open env b))

abbrev pub try_probe : Env → Bool → Breaker → Verdict × Breaker
try_probe env healthy b =
    let (got, b') = try_acquire_half_open_lock env b in
    if got then probe env healthy b' else (blocked 5, b')

abbrev pub check_state : Env → Bool → Breaker → BreakerState → Option ℕ → Verdict × Breaker
check_state env healthy b closed opened = (allowed, b)
check_state env healthy b open_state opened =
    if cooling env opened then (blocked (get_retry_after env b), b) else try_probe env healthy b
check_state env healthy b half_open opened = try_probe env healthy b

-- `check_breaker_before_call`; `healthy` is what the probe would find.
unfoldable pub check_breaker_before_call : Env → Bool → Breaker → Verdict × Breaker
unfolding get_state get_retry_after try_acquire_half_open_lock set_half_open close_breaker
    open_breaker
check_breaker_before_call env healthy b =
    let (s, opened) = get_state env b in check_state env healthy b s opened

-- `record_notary_failure`; `unavailable` says that the error is a NotaryUnavailableError.
unfoldable pub record_notary_failure : Env → Bool → Breaker → Breaker
unfolding get_state open_breaker record_failure
record_notary_failure env unavailable b =
    if unavailable
    then elim (get_state env b).0 [ closed ↦ (record_failure env b).1 | _ ↦ open_breaker env b ]
    else b

-- `record_notary_success`
unfoldable pub record_notary_success : Env → Breaker → Breaker
unfolding get_state close_breaker
record_notary_success env b = elim (get_state env b).0 [ half_open ↦ close_breaker env b | _ ↦ b ]

-- `breaker_status`
pub record Status : Type 0 where
  pub state : BreakerState
  pub opened_at : Option ℕ
  pub failure_count : ℕ
  pub retry_after : ℕ

unfoldable pub breaker_status : Env → Breaker → Status
unfolding get_state get_retry_after
breaker_status env b =
    let (s, opened) = get_state env b in
    record {
      state = s;
      opened_at = opened;
      failure_count = elim env.link [
        | up ↦ counted env.now b.shared.failures
        | _ ↦ b.local.failure_count
      ];
      retry_after = if is_closed s then 0 else get_retry_after env b;
    }
