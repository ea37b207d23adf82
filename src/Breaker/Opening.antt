-- ===== src/Breaker/Opening.antt =====
-- services/shared/notary_breaker.py: as many failures as the threshold, within the window, open the
-- breaker, and fewer do not.
use native.Mathlib.Nat.{add-zero}
use gdi_backend.Prelude.{
  ℕ, suc, ◌+◌, ◌*◌, ◌≤◌, ◌<◌, ◌≡◌, refl, Bool, true, false, Option, none, some, List, [], ◌∷◌,
  length, leb, arith, subst, if◌then◌else◌,
}
use gdi_backend.Breaker.Laws.{get_state-open_breaker}
use gdi_backend.Breaker.{
  closed, open_state, Breaker, up, Env, second, get_state, open_breaker, record_failure,
  record_notary_failure, counted, expiry, new_expiry, shared_record_failure, or_closed,
}

-- Redis answers, the threshold and the window are these, and the clock is within the window that
-- starts at `t`.
pub record IsSteady (k w t : ℕ) (env : Env) : Type 0 where
  pub link : env.link ≡ up
  pub threshold : env.threshold ≡ k
  pub window : env.window ≡ w
  pub after : t ≤ env.now
  pub before : env.now < t + w * second

-- A failure of the signing service at each of these times.
unfoldable pub fail_all : List Env → Breaker → Breaker
fail_all [] b = b
fail_all (env ∷ envs) b = fail_all envs (record_notary_failure env true b)

abbrev pub AllSteady : ℕ → ℕ → ℕ → List Env → Type 0
AllSteady k w t [] = Unit
AllSteady k w t (env ∷ envs) = IsSteady k w t env × AllSteady k w t envs

-- A count of `n` that lives until `bound`; no key counts for 0.
abbrev CountsTo : ℕ → ℕ → Option (ℕ × Option ℕ) → Type 0
CountsTo n bound none = n ≡ 0
CountsTo n bound (some (m, none)) = ⊥
CountsTo n bound (some (m, some e)) = (m ≡ n) × (bound ≤ e)

-- The breaker is closed and has counted `n` failures.
pub record HasCounted (n bound : ℕ) (b : Breaker) : Type 0 where
  pub closed_still : or_closed b.shared.state ≡ closed
  pub count : CountsTo n bound b.shared.failures

-- The key after INCR and EXPIRE.
abbrev new_failures : Env → Option (ℕ × Option ℕ) → Option (ℕ × Option ℕ)
new_failures env f = let n = counted env.now f + 1 in some (n, new_expiry env n (expiry env.now f))

counts_one_more :
    (n bound : ℕ) (env : Env) (f : Option (ℕ × Option ℕ))
    → env.now < bound
    → bound ≤ env.now + env.window * second
    → CountsTo n bound f
    → (counted env.now f ≡ n) × CountsTo (suc n) bound (new_failures env f)
counts_one_more n bound env none h w c = ground arith
counts_one_more n bound env (some (m, none)) h w c = absurd c
counts_one_more n bound env (some (m, some e)) h w c = ground arith

-- A failure of a closed breaker is counted; the count decides whether the breaker opens.
failure_step :
    (env : Env) (b : Breaker) {x : Bool}
    → env.link ≡ up
    → or_closed b.shared.state ≡ closed
    → leb env.threshold (counted env.now b.shared.failures + 1) ≡ x
    → record_notary_failure env true b ≡ (
        if x
        then open_breaker env (shared_record_failure env b).1
        else (shared_record_failure env b).1)
unfolding record_notary_failure
failure_step env b {x = true} link shut full =
    rw (link, shut, record_failure, link, shut, full) refl
failure_step env b {x = false} link shut full =
    rw (link, shut, record_failure, link, shut, full) refl

module _ (k w t : ℕ) (env : Env) (b : Breaker) (s : IsSteady k w t env) where
  counted_next :
      (n : ℕ)
      → HasCounted n (t + w * second) b
      → (counted env.now b.shared.failures ≡ n)
        × CountsTo (suc n) (t + w * second) (new_failures env b.shared.failures)
  counted_next n h =
      counts_one_more n (t + w * second) env b.shared.failures s.before (ground (arith, s)) h.count

  -- A failure under the threshold is counted, and the breaker stays closed.
  one_more :
      (n : ℕ)
      → HasCounted n (t + w * second) b
      → suc n < k
      → HasCounted (suc n) (t + w * second) (record_notary_failure env true b)
  one_more n h more =
      let (c, next) = counted_next n h in
      rw (failure_step env b {x = false} s.link h.closed_still (ground (arith, s)))
        (record { closed_still = h.closed_still; count = next })

  -- The failure that reaches the threshold opens it.
  last_one :
      (n : ℕ)
      → HasCounted n (t + w * second) b
      → suc n ≡ k
      → (get_state env (record_notary_failure env true b)).0 ≡ open_state
  last_one n h e =
      let (c, next) = counted_next n h in
      rw (failure_step env b {x = true} s.link h.closed_still (ground (arith, s)))
        (rw (get_state-open_breaker env env (shared_record_failure env b).1 s.link) refl)

fail_up_to :
    (k w t n : ℕ) (envs : List Env) (b : Breaker)
    → AllSteady k w t envs
    → HasCounted n (t + w * second) b
    → n + length envs < k
    → HasCounted (n + length envs) (t + w * second) (fail_all envs b)
unfolding fail_all
fail_up_to k w t n [] b s h less = rw add-zero h
fail_up_to k w t n (env ∷ envs) b s h less =
    subst (λ m. HasCounted m (t + w * second) (fail_all envs (record_notary_failure env true b)))
      (omega arith)
      (fail_up_to k w t (suc n) envs (record_notary_failure env true b) s.1
        (one_more k w t env b s.0 n h (omega arith)) (omega arith))

-- From a closed breaker that has counted no failure, with Redis in reach and the clock within one
-- window: fewer failures of the service than the threshold leave the breaker closed, and one more,
-- at the threshold, opens it.
pub opens-at-threshold :
    (w t : ℕ) (envs : List Env) (last : Env) (b : Breaker)
    → AllSteady (suc (length envs)) w t envs
    → IsSteady (suc (length envs)) w t last
    → HasCounted 0 (t + w * second) b
    → ((get_state last (fail_all envs b)).0 ≡ closed)
      × ((get_state last (record_notary_failure last true (fail_all envs b))).0 ≡ open_state)
unfolding get_state
opens-at-threshold w t envs last b s l h =
    let counted = fail_up_to (suc (length envs)) w t 0 envs b s h (omega arith) in
    (
      rw l.link counted.closed_still,
      last_one (suc (length envs)) w t last (fail_all envs b) l (0 + length envs) counted
          (omega arith),
    )
