-- ===== src/RateLimit/Stamps.antt =====
-- services/shared/dts_rate_limiter.py: the time stamps of a minute, a share of which is kept for
-- the requests with priority.
use gdi_backend.Prelude.Texts.{codes}
use gdi_backend.Prelude.{
  ℕ, suc, ◌+◌, ◌-◌, ◌*◌, ◌/◌, ◌%◌, Bool, true, false, Option, none, some, ltb, leb, ◌==◌, max,
  eq_some, if◌then◌else◌,
}
use gdi_backend.RateLimit.Counters.{second, Slot, Key, Counters, set_slot, read, incremented}

-- DTS_MAX_PER_MINUTE, DTS_DEGRADED_DIVISOR, and SPECIAL_TSA_RESERVED_PCT in hundredths: the code
-- multiplies by the decimal fraction 0.05.
pub record Settings : Type 0 where
  pub max_per_minute : ℕ
  pub degraded_divisor : ℕ
  pub reserved_percent : ℕ

-- `_fallback_window`, and the counters in Redis
pub record Stamps : Type 0 where
  pub minute : Option ℕ
  pub count : ℕ
  pub shared : Counters

-- No client, a client whose script raises, or one that answers.
pub data Link : Type 0 where
  absent failing up : Link

-- `_current_minute`
abbrev pub current_minute : ℕ → ℕ
current_minute now = now / (60 * second)

-- `_effective_cap`
unfoldable pub effective_cap : Settings → ℕ → Bool → ℕ
effective_cap st base_max true = base_max
effective_cap st base_max false = base_max * (100 - st.reserved_percent) / 100

-- `_local_try_consume`
unfoldable pub local_try_consume : Settings → ℕ → Bool → Stamps → Bool × Stamps
local_try_consume st now priority s =
    let top = effective_cap st (max 1 (st.max_per_minute / st.degraded_divisor)) priority in
    let n = if eq_some s.minute (current_minute now) then s.count else 0 in
    if leb top n
    then (false, record s { minute = some (current_minute now); count = n })
    else (true, record s { minute = some (current_minute now); count = suc n })

abbrev pub key_of : ℕ → Key
key_of now = (codes "escri_dts_rl", current_minute now)

-- INCR, and EXPIRE when the count is 1.
abbrev pub counted : ℕ → Option Slot → Slot
counted now slot =
    let s = incremented slot in
    if s.count == 1 then record s { expires = some (now + 120 * second) } else s

-- Over the cap, DECR takes the count back.
abbrev pub settle : ℕ → Key → Slot → Counters → ℕ × Counters
settle top k s cs =
    if ltb top s.count
    then (0, set_slot k (record s { count = s.count - 1 }) cs)
    else (s.count, set_slot k s cs)

-- `_INCR_CHECK_LUA`
unfoldable pub incr_check : ℕ → ℕ → Counters → ℕ × Counters
incr_check now top cs = settle top (key_of now) (counted now (read now (key_of now) cs)) cs

-- `try_consume_dts_slot`
unfoldable pub try_consume_dts_slot : Settings → Link → ℕ → Bool → Stamps → Bool × Stamps
try_consume_dts_slot st up now priority s =
    let (n, cs) = incr_check now (effective_cap st st.max_per_minute priority) s.shared in
    (ltb 0 n, record s { shared = cs })
try_consume_dts_slot st _ now priority s = local_try_consume st now priority s

-- `seconds_until_next_window`
unfoldable pub seconds_until_next_window : ℕ → ℕ
seconds_until_next_window now = max 1 (60 - now % (60 * second) / second)

abbrev slot_count : Option Slot → ℕ
slot_count none = 0
slot_count (some s) = s.count

-- `current_minute_count`
unfoldable pub current_minute_count : Link → ℕ → Stamps → ℕ
current_minute_count absent now s = if eq_some s.minute (current_minute now) then s.count else 0
current_minute_count failing now s = 0
current_minute_count up now s = slot_count (read now (key_of now) s.shared)
