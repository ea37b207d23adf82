-- ===== src/RateLimit/Degraded.antt =====
-- middleware/rate_limit.py: what becomes of the limit after an error of Redis.
use gdi_backend.Prelude.{
  length, all_of, ℕ, ◌≡◌, Bool, true, false, List, [], ◌∷◌, leb, if◌then◌else◌,
}
use gdi_backend.Prelude.Texts.{Text}
use gdi_backend.RateLimit.Middleware.{
  fails_before, fails_after, dispatch_redis, Middleware, Pipeline, fire,
}

-- A request that had passed the test of the mode before an error of Redis, and whose own call of Redis
-- raises, before Redis has run it or after.
pub record Flight : Type 0 where
  pub now : ℕ
  pub identity : Text
  pub limit : ℕ
  pub runs : Bool

abbrev pub failure_of : Bool → Pipeline
failure_of runs = if runs then fails_after else fails_before

abbrev pub land : Flight → Middleware → Middleware
land f s = (dispatch_redis (failure_of f.runs) f.now f.identity f.limit s).1

abbrev pub land_all : List Flight → Middleware → Middleware
land_all [] s = s
land_all (f ∷ fs) s = land_all fs (land f s)

-- The loop runs at these times, and each ping fails.
abbrev pub fire_all : Bool → List ℕ → Middleware → Middleware
fire_all has_url [] s = s
fire_all has_url (t ∷ ts) s = fire_all has_url ts (fire t has_url false s)

-- Without Redis, and with `n` attempts planned, each for a time that is not after `t`.
record HasPlanned (n t : ℕ) (s : Middleware) : Type 0 where
  off : s.connected ≡ false
  planned : length s.timers ≡ n
  due : all_of (λ u. leb u t) s.timers ≡ true
