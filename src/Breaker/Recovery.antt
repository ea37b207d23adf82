-- ===== src/Breaker/Recovery.antt =====
-- services/shared/notary_breaker.py: the breaker never refuses calls for ever. Whatever happened
-- before, after the cooldown a check that finds the service healthy closes it.
use gdi_backend.Prelude.{
  ℕ, ◌+◌, ◌*◌, ◌≤◌, ◌<◌, ◌≡◌, refl, Bool, true, false, ◌&&◌, Option, none, some, List, [], ◌∷◌, leb,
  Bool-cases, inl, inr, arith,
}
use gdi_backend.Breaker.{
  BreakerState, closed, open_state, half_open, Breaker, Link, absent, failing, up, Env, second,
  allowed, get_state, open_breaker, close_breaker, set_half_open, try_acquire_half_open_lock,
  local_record_failure, record_failure, cooling, probe, try_probe, check_state,
  check_breaker_before_call, record_notary_failure, record_notary_success, local_closed, is_closed,
  or_closed, count_failure,
}
use gdi_backend.Breaker.Laws.{cooling-false}

pub data Event : Type 0 where
  check : Bool → Event
  failure : Bool → Event
  success : Event

unfoldable pub step : Env → Event → Breaker → Breaker
step env (check healthy) b = (check_breaker_before_call env healthy b).1
step env (failure unavailable) b = record_notary_failure env unavailable b
step env success b = record_notary_success env b

unfoldable pub run_events : List (Env × Event) → Breaker → Breaker
run_events [] b = b
run_events ((env, e) ∷ es) b = run_events es (step env e b)

-- An open state has a time of opening, not 0 and not after `t`; other states need none.
abbrev pub Timed : ℕ → BreakerState → Option ℕ → Type 0
Timed t open_state none = ⊥
Timed t open_state (some o) = (0 < o) × (o ≤ t)
Timed t _ _ = Unit

abbrev pub LockTimed : ℕ → Option ℕ → Type 0
LockTimed t none = Unit
LockTimed t (some e) = e ≤ t + 10 * second

-- The times that the breaker keeps are not after `t`.
pub record IsTimed (t : ℕ) (b : Breaker) : Type 0 where
  pub shared : Timed t (or_closed b.shared.state) b.shared.opened_at
  pub local : Timed t b.local.state b.local.opened_at
  pub lock : LockTimed t b.shared.half_lock

module _ (t : ℕ) (env : Env) (p : 0 < env.now) (h : env.now ≤ t) where
  open_breaker-IsTimed : (b : Breaker) → IsTimed t b → IsTimed t (open_breaker env b)
  unfolding open_breaker
  open_breaker-IsTimed b i = ground arith

  close_breaker-IsTimed : (b : Breaker) → IsTimed t b → IsTimed t (close_breaker env b)
  unfolding close_breaker
  close_breaker-IsTimed b i = ground arith

  set_half_open-IsTimed : (b : Breaker) → IsTimed t b → IsTimed t (set_half_open env b)
  unfolding set_half_open
  set_half_open-IsTimed b i = ground arith

  try_lock-IsTimed : (b : Breaker) → IsTimed t b → IsTimed t (try_acquire_half_open_lock env b).1
  unfolding try_acquire_half_open_lock
  try_lock-IsTimed b i = ground arith

  count_failure-IsTimed : (b : Breaker) → IsTimed t b → IsTimed t (count_failure env b).1
  unfolding local_record_failure
  count_failure-IsTimed b i = ground arith

  record_failure-IsTimed : (b : Breaker) → IsTimed t b → IsTimed t (record_failure env b).1
  unfolding record_failure
  record_failure-IsTimed b i =
      let (n, b') = count_failure env b in
      elim (Bool-cases (leb env.threshold n && is_closed (get_state env b').0)) [
        | inl full ↦ rw full (open_breaker-IsTimed b' (count_failure-IsTimed b i))
        | inr more ↦ rw more (count_failure-IsTimed b i)
      ]

  record_notary_failure-IsTimed :
      (unavailable : Bool) (b : Breaker)
      → IsTimed t b
      → IsTimed t (record_notary_failure env unavailable b)
  unfolding record_notary_failure
  record_notary_failure-IsTimed false b i = i
  record_notary_failure-IsTimed true b i = by_state (get_state env b).0
    where
      by_state :
          (s : BreakerState)
          → IsTimed t (elim s [ closed ↦ (record_failure env b).1 | _ ↦ open_breaker env b ])
      by_state closed = record_failure-IsTimed b i
      by_state open_state = open_breaker-IsTimed b i
      by_state half_open = open_breaker-IsTimed b i

  record_notary_success-IsTimed :
      (b : Breaker) → IsTimed t b → IsTimed t (record_notary_success env b)
  unfolding record_notary_success
  record_notary_success-IsTimed b i = by_state (get_state env b).0
    where
      by_state : (s : BreakerState) → IsTimed t (elim s [ half_open ↦ close_breaker env b | _ ↦ b ])
      by_state half_open = close_breaker-IsTimed b i
      by_state closed = i
      by_state open_state = i

  probe-IsTimed : (healthy : Bool) (b : Breaker) → IsTimed t b → IsTimed t (probe env healthy b).1
  probe-IsTimed true b i = close_breaker-IsTimed (set_half_open env b) (set_half_open-IsTimed b i)
  probe-IsTimed false b i = open_breaker-IsTimed (set_half_open env b) (set_half_open-IsTimed b i)

  try_probe-IsTimed :
      (healthy : Bool) (b : Breaker) → IsTimed t b → IsTimed t (try_probe env healthy b).1
  try_probe-IsTimed healthy b i =
      let (got, b') = try_acquire_half_open_lock env b in
      elim (Bool-cases got) [
        | inl first ↦ rw first (probe-IsTimed healthy b' (try_lock-IsTimed b i))
        | inr late ↦ rw late (try_lock-IsTimed b i)
      ]

  check-IsTimed :
      (healthy : Bool) (b : Breaker)
      → IsTimed t b
      → IsTimed t (check_breaker_before_call env healthy b).1
  unfolding check_breaker_before_call
  check-IsTimed healthy b i = by_state (get_state env b).0 (get_state env b).1
    where
      by_state : (s : BreakerState) (o : Option ℕ) → IsTimed t (check_state env healthy b s o).1
      by_state closed o = i
      by_state half_open o = try_probe-IsTimed healthy b i
      by_state open_state o = elim (Bool-cases (cooling env o)) [
        | inl soon ↦ rw soon i
        | inr late ↦ rw late (try_probe-IsTimed healthy b i)
      ]

  step-IsTimed : (e : Event) (b : Breaker) → IsTimed t b → IsTimed t (step env e b)
  unfolding step
  step-IsTimed (check healthy) b i = check-IsTimed healthy b i
  step-IsTimed (failure unavailable) b i = record_notary_failure-IsTimed unavailable b i
  step-IsTimed success b i = record_notary_success-IsTimed b i

-- The clock of each event is after 0 and not after `t`.
abbrev pub UpTo : ℕ → List (Env × Event) → Type 0
UpTo t [] = Unit
UpTo t ((env, e) ∷ es) = (0 < env.now) × (env.now ≤ t) × UpTo t es

run_events-IsTimed :
    (t : ℕ) (es : List (Env × Event)) (b : Breaker)
    → UpTo t es
    → IsTimed t b
    → IsTimed t (run_events es b)
unfolding run_events
run_events-IsTimed t [] b u i = i
run_events-IsTimed t ((env, e) ∷ es) b u i =
    run_events-IsTimed t es (step env e b) u.2 (step-IsTimed t env u.0 u.1 e b i)

-- The breaker of a process that starts, with nothing in Redis.
abbrev pub fresh : Breaker
fresh = record {
  shared = record { state = none; opened_at = none; failures = none; half_lock = none };
  local = local_closed;
}

closed_after : (env : Env) (b : Breaker) → (get_state env (close_breaker env b)).0 ≡ closed
unfolding get_state close_breaker
closed_after env b = ground arith

lock_free :
    (t : ℕ) (env : Env) (b : Breaker)
    → IsTimed t b
    → t + 10 * second ≤ env.now
    → (try_acquire_half_open_lock env b).0 ≡ true
unfolding try_acquire_half_open_lock
lock_free t env b i h = ground arith

probe_succeeds :
    (t : ℕ) (env : Env) (b : Breaker)
    → IsTimed t b
    → t + 10 * second ≤ env.now
    → ((try_probe env true b).0 ≡ allowed) × ((get_state env (try_probe env true b).1).0 ≡ closed)
probe_succeeds t env b i h =
    rw (lock_free t env b i h) (refl, closed_after env (set_half_open env _))

module _ (t : ℕ) (env : Env) (b : Breaker) (i : IsTimed t b)
    (late : t + env.cooldown * second ≤ env.now) (later : t + 10 * second ≤ env.now) where
  recovers_from :
      (s : BreakerState) (o : Option ℕ)
      → get_state env b ≡ (s, o)
      → Timed t s o
      → let (v, b') = check_state env true b s o in (v ≡ allowed) × ((get_state env b').0 ≡ closed)
  recovers_from closed o e p = (refl, rw e)
  recovers_from half_open o e p = probe_succeeds t env b i later
  recovers_from open_state none e p = absurd p
  recovers_from open_state (some o) e (positive, early) =
      rw (cooling-false env o positive (omega arith)) (probe_succeeds t env b i later)

  Timed-state : Timed t (get_state env b).0 (get_state env b).1
  unfolding get_state
  Timed-state = by_link env.link
    where
      by_link : (l : Link) → let (s, o) = get_state (record env { link = l }) b in Timed t s o
      by_link absent = i.local
      by_link failing = i.local
      by_link up = i.shared

  recovers_check :
      let (v, b') = check_breaker_before_call env true b in
      (v ≡ allowed) × ((get_state env b').0 ≡ closed)
  unfolding check_breaker_before_call
  recovers_check = recovers_from (get_state env b).0 (get_state env b).1 refl Timed-state

-- From a breaker of which nothing is kept, after any events, with Redis in reach or not at each of
-- them, all up to the time `t`: a check of a healthy service, made the cooldown and ten seconds after
-- `t` or later, is allowed and leaves the breaker closed.
pub run_events-recovers :
    (t : ℕ) (es : List (Env × Event)) (env : Env)
    → UpTo t es
    → t + env.cooldown * second ≤ env.now
    → t + 10 * second ≤ env.now
    → let (v, b') = check_breaker_before_call env true (run_events es fresh) in
      (v ≡ allowed) × ((get_state env b').0 ≡ closed)
run_events-recovers t es env u late later =
    recovers_check t env (run_events es fresh)
      (run_events-IsTimed t es fresh u (record { shared = tt; local = tt; lock = tt })) late later
