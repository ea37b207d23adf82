-- ===== src/RateLimit/Middleware.antt =====
-- middleware/rate_limit.py: the limit on the requests of an address or a user, on a counter in Redis
-- or, without it, on the times of the requests in memory.
use gdi_backend.Prelude.Texts.{Text, codes, text_eq, strip, or_else, before_comma}
use gdi_backend.Prelude.{
  ℕ, ◌+◌, ◌-◌, ◌*◌, ◌/◌, Bool, true, false, ◌||◌, Option, none, some, List, [], ◌∷◌, ◌++◌, ltb, leb,
  length, max, if◌then◌else◌, any_of,
}
use gdi_backend.RateLimit.Window.{Table, get, put, recent, first_or}
use gdi_backend.RateLimit.Counters.{second, Slot, Key, Counters, set_slot, read, incremented}

pub data AuthSource : Type 0 where
  api_key service jwt other_source : AuthSource

pub record Request : Type 0 where
  pub is_options : Bool
  pub path : Text
  pub fly_client_ip : Option Text
  pub forwarded_for : Option Text
  pub host : Option Text
  pub auth_source : AuthSource
  pub tenant_user_id : Option Text

-- RATE_LIMIT and RATE_LIMIT_PER_USER
pub record Limits : Type 0 where
  pub per_address : ℕ
  pub per_user : ℕ

-- The state of RateLimitMiddleware; `connected` when the mode is "redis" and there is a client,
-- `timers` the times at which the loop calls `_maybe_reconnect_redis`. With it, the counters in
-- Redis.
pub record Middleware : Type 0 where
  pub connected : Bool
  pub requests : Table
  pub last_cleanup : ℕ
  pub last_redis_error_at : ℕ
  pub timers : List ℕ
  pub counters : Counters

-- The pipeline answers, or raises, before Redis has run it or after.
pub data Pipeline : Type 0 where
  pipeline_answers fails_before fails_after : Pipeline

-- The response: not limited; let through, with the limit, what remains and the time of the reset; or
-- 429, with the limit, the reset and the delay.
pub data Response : Type 0 where
  unlimited : Response
  let_through : ℕ → ℕ → ℕ → Response
  too_many : ℕ → ℕ → ℕ → Response

abbrev pub window_seconds : ℕ
window_seconds = 60

abbrev pub redis_retry_interval : ℕ
redis_retry_interval = 30

abbrev pub text_or_empty : Option Text → Text
text_or_empty none = []
text_or_empty (some t) = t

-- `_get_client_ip`
unfoldable pub client_ip : Request → Text
client_ip q = or_else q.fly_client_ip (
    or_else (some (strip (before_comma (text_or_empty q.forwarded_for))))
      (or_else q.host (codes "unknown")))

abbrev pub excluded_paths : List Text
excluded_paths = codes "/health" ∷ codes "/docs" ∷ codes "/openapi.json" ∷ codes "/redoc" ∷ []

abbrev pub is_excluded : Request → Bool
is_excluded q = q.is_options || any_of (text_eq q.path) excluded_paths

abbrev pub user_limit : Limits → Text → Option Text → Text × ℕ
user_limit l ip none = (ip, l.per_address)
user_limit l ip (some []) = (ip, l.per_address)
user_limit l ip (some (c ∷ user)) = (codes "user:" ++ c ∷ user, l.per_user)

-- The identity that is counted, and its limit.
abbrev pub identity_limit : Limits → Request → Text × ℕ
identity_limit l q = elim q.auth_source [
  | api_key ↦ (client_ip q, l.per_address * 10)
  | service ↦ (client_ip q, l.per_address * 10)
  | jwt ↦ user_limit l (client_ip q) q.tenant_user_id
  | other_source ↦ (client_ip q, l.per_address)
]

-- `not ts or ts[-1] <= window_start`
abbrev pub is_stale : ℕ → List ℕ → Bool
is_stale now [] = true
is_stale now (t ∷ []) = leb (t + window_seconds * second) now
is_stale now (t ∷ u ∷ ts) = is_stale now (u ∷ ts)

abbrev pub without_stale : ℕ → Table → Table
without_stale now [] = []
without_stale now ((k, ts) ∷ rest) =
    let others = without_stale now rest in if is_stale now ts then others else (k, ts) ∷ others

-- CLEANUP_INTERVAL has passed.
abbrev pub cleaned_up : ℕ → Middleware → Middleware
cleaned_up now s =
    if ltb (s.last_cleanup + 300 * second) now
    then record s { last_cleanup = now; requests = without_stale now s.requests }
    else s

-- `_dispatch_memory`: a request that is refused stays in the list.
unfoldable pub dispatch_memory : ℕ → Text → ℕ → Middleware → Response × Middleware
dispatch_memory now identity limit s =
    let timestamps = recent now (window_seconds * second) (get identity s.requests) ++ now ∷ [] in
    let s' = record s { requests = put identity timestamps s.requests } in
    let reset_at = (first_or now timestamps + window_seconds * second) / second in
    if ltb limit (length timestamps)
    then (too_many limit reset_at (max (reset_at - now / second) 1), s')
    else (let_through limit (limit - length timestamps) reset_at, cleaned_up now s')

abbrev pub window_of : ℕ → ℕ
window_of now = now / second / window_seconds

-- `_incr_window`
abbrev pub incr_window : ℕ → Text → Counters → Slot × Counters
incr_window now identity cs =
    let key : Key = (identity, window_of now) in
    let r = incremented (read now key cs) in
    let s : Slot = record r { expires = some (now + (window_seconds + 1) * second) } in
    (s, set_slot key s cs)

abbrev pub counted_response : ℕ → ℕ → ℕ → Response
counted_response now limit count =
    let reset_at = (window_of now + 1) * window_seconds in
    if ltb limit count
    then too_many limit reset_at (max (reset_at - now / second) 1)
    else let_through limit (limit - count) reset_at

-- The handler of an error of Redis: the mode changes, and one attempt to reconnect is planned.
abbrev pub degraded : ℕ → Middleware → Middleware
degraded now s = record s {
  connected = false;
  last_redis_error_at = now;
  timers = s.timers ++ (now + redis_retry_interval * second) ∷ [];
}

-- `_dispatch_redis`
unfoldable pub dispatch_redis : Pipeline → ℕ → Text → ℕ → Middleware → Response × Middleware
dispatch_redis p now identity limit s =
    let (slot, cs) = incr_window now identity s.counters in
    elim p [
      | pipeline_answers ↦ (counted_response now limit slot.count, record s { counters = cs })
      | fails_before ↦ dispatch_memory now identity limit (degraded now s)
      | fails_after ↦ dispatch_memory now identity limit (degraded now (record s { counters = cs }))
    ]

-- `dispatch`
unfoldable pub dispatch : Limits → Pipeline → ℕ → Request → Middleware → Response × Middleware
dispatch l p now q s =
    let (identity, limit) = identity_limit l q in
    if is_excluded q
    then (unlimited, s)
    else (if s.connected
        then dispatch_redis p now identity limit s
        else dispatch_memory now identity limit s)

-- `_try_redis`, with REDIS_URL or without, whose ping may fail.
abbrev pub try_redis : Bool → Bool → Middleware → Middleware
try_redis has_url pings s =
    if has_url
    then (if pings
        then record s { connected = true; last_redis_error_at = 0 }
        else record s { connected = false })
    else s

-- `_maybe_reconnect_redis`
abbrev pub maybe_reconnect : ℕ → Bool → Bool → Middleware → Middleware
maybe_reconnect now has_url pings s =
    if leb (s.last_redis_error_at + redis_retry_interval * second) now
    then try_redis has_url pings s
    else s

-- The loop fires the first timer, if it is due.
unfoldable pub fire : ℕ → Bool → Bool → Middleware → Middleware
fire now has_url pings s = elim s.timers [
  | [] ↦ s
  | due ∷ later ↦
      if leb due now then maybe_reconnect now has_url pings (record s { timers = later }) else s
]
