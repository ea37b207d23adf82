-- ===== src/Breaker/Laws.antt =====
-- services/shared/notary_breaker.py: an open breaker refuses calls for the whole cooldown, and one
-- caller at a time probes.
use gdi_backend.Prelude.{
  ℕ, zero, suc, ◌+◌, ◌-◌, ◌*◌, ◌/◌, ◌≤◌, ◌<◌, ◌≡◌, refl, Bool, true, false, some, max, arith,
}
use gdi_backend.Breaker.{
  open_state, Breaker, Link, absent, failing, up, Env, second, blocked, get_state, open_breaker,
  try_acquire_half_open_lock, live_lock, get_retry_after, cooling, check_breaker_before_call,
}

pub cooling-true :
    (env : Env) (opened : ℕ)
    → 0 < opened
    → env.now < opened + env.cooldown * second
    → cooling env (some opened) ≡ true
cooling-true env zero p h = elim p [ ]
cooling-true env (suc n) p h = ground arith

pub cooling-false :
    (env : Env) (opened : ℕ)
    → 0 < opened
    → opened + env.cooldown * second ≤ env.now
    → cooling env (some opened) ≡ false
cooling-false env zero p h = elim p [ ]
cooling-false env (suc n) p h = ground arith

pub get_state-open_breaker :
    (env env' : Env) (b : Breaker)
    → env.link ≡ up
    → get_state env' (open_breaker env b) ≡ (open_state, some env.now)
unfolding get_state open_breaker
get_state-open_breaker env env' b link = elim_link env'.link
  where
    elim_link :
        (l : Link)
        → get_state (record env' { link = l }) (open_breaker env b) ≡ (open_state, some env.now)
    elim_link absent = rw link
    elim_link failing = rw link
    elim_link up = rw link

-- The seconds left, rounded down, but one at least and the cooldown at most.
remaining_bounds :
    (opened cooldown now : ℕ)
    → 0 < cooldown
    → opened ≤ now
    → (1 ≤ max 1 ((opened + cooldown * second - now) / second))
      × (max 1 ((opened + cooldown * second - now) / second) ≤ cooldown)
remaining_bounds opened cooldown now c h = (omega arith, omega arith)

retry_after-open_breaker :
    (env env' : Env) (b : Breaker)
    → env.link ≡ up
    → get_retry_after env' (open_breaker env b)
      ≡ max 1 ((env.now + env'.cooldown * second - env'.now) / second)
unfolding get_retry_after
retry_after-open_breaker env env' b link =
    rw (get_retry_after, get_state-open_breaker env env' b link) refl

-- After the breaker opens, with Redis in reach: every check within the cooldown, with Redis in reach
-- or not, is refused with a delay of at least a second and at most the cooldown, and changes
-- nothing.
pub open-blocks :
    (env env' : Env) (b : Breaker) (healthy : Bool)
    → env.link ≡ up
    → 0 < env.now
    → 0 < env'.cooldown
    → env.now ≤ env'.now
    → env'.now < env.now + env'.cooldown * second
    → let opened = open_breaker env b in
      (r : ℕ) × (check_breaker_before_call env' healthy opened ≡ (blocked r, opened))
      × (1 ≤ r)
      × (r ≤ env'.cooldown)
unfolding check_breaker_before_call
open-blocks env env' b healthy link p c from until =
    let now_open = get_state-open_breaker env env' b link in
    let (low, high) = remaining_bounds env.now env'.cooldown env'.now c from in
    (
      max 1 ((env.now + env'.cooldown * second - env'.now) / second),
      rw (now_open, cooling-true env' env.now p until, retry_after-open_breaker env env' b link)
          refl,
      low,
      high,
    )

-- The lock of the half-open probe is given once in ten seconds: after one caller takes it, a caller
-- at any time in the next ten seconds does not, and the breaker stays as it is.
half_open_lock-once :
    (env env' : Env) (b : Breaker)
    → env.link ≡ up
    → env'.link ≡ up
    → live_lock env.now b.shared.half_lock ≡ false
    → env'.now < env.now + 10 * second
    → let (first, b') = try_acquire_half_open_lock env b in
      (first ≡ true) × (try_acquire_half_open_lock env' b' ≡ (false, b'))
unfolding try_acquire_half_open_lock
half_open_lock-once env env' b l l' free soon = ground arith
