-- ===== src/RateLimit/InMemory.antt =====
-- middleware/rate_limit.py: the limit in memory, with Redis out of use and no attempt planned.
use gdi_backend.Prelude.{ℕ, ◌≡◌, refl, sym, ◌∙◌, Bool, true, false, List, [], ◌∷◌, if◌then◌else◌}
use gdi_backend.Prelude.Texts.{Text}
use gdi_backend.RateLimit.Middleware.{
  Request, Response, Limits, Middleware, Pipeline, is_excluded, identity_limit, dispatch_memory,
  dispatch, fire,
}

-- A request comes, with what the pipeline would do, or the loop runs its timers, with what the ping
-- would do.
pub data Event : Type 0 where
  request : Limits → Pipeline → ℕ → Request → Event
  timer : ℕ → Bool → Bool → Event

abbrev pub step : Event → Middleware → Middleware
step (request l p now q) s = (dispatch l p now q s).1
step (timer now has_url pings) s = fire now has_url pings s

abbrev pub run_events : List Event → Middleware → Middleware
run_events [] s = s
run_events (e ∷ es) s = run_events es (step e s)

-- Without Redis, and with no attempt to reconnect planned.
abbrev pub IsDown : Middleware → Type 0
IsDown s = (s.connected ≡ false) × (s.timers ≡ [])

if-IsDown : (b : Bool) (s t : Middleware) → IsDown s → IsDown t → IsDown (if b then s else t)
if-IsDown true s t h k = h
if-IsDown false s t h k = k

-- The answer of a test on a state, of which the second may be known to be taken.
answer-IsDown :
    (b : Bool) (x y : Response × Middleware)
    → (b ≡ true → IsDown x.1)
    → IsDown y.1
    → IsDown (if b then x else y).1
answer-IsDown true x y h k = h refl
answer-IsDown false x y h k = k

dispatch_memory-IsDown :
    (now : ℕ) (identity : Text) (limit : ℕ) (s : Middleware)
    → IsDown s
    → IsDown (dispatch_memory now identity limit s).1
unfolding dispatch_memory
dispatch_memory-IsDown now identity limit s down =
    answer-IsDown _ _ _ (λ _. down) (if-IsDown _ _ _ down down)

step-IsDown : (e : Event) (s : Middleware) → IsDown s → IsDown (step e s)
unfolding dispatch fire
step-IsDown (request l p now q) s down =
    answer-IsDown (is_excluded q) _ _ (λ _. down)
      (answer-IsDown s.connected _ _ (λ on. let never : false ≡ true = sym down.0 ∙ on in cc)
        (dispatch_memory-IsDown now (identity_limit l q).0 (identity_limit l q).1 s down))
step-IsDown (timer now has_url pings) s down = rw down.1 (down.0, refl)

pub run_events-IsDown : (es : List Event) (s : Middleware) → IsDown s → IsDown (run_events es s)
run_events-IsDown [] s down = down
run_events-IsDown (e ∷ es) s down = run_events-IsDown es (step e s) (step-IsDown e s down)
