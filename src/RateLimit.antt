-- ===== src/RateLimit.antt =====
-- The rate limits: api_gateway/rate_limiter.py (the API keys, over a sliding window),
-- middleware/rate_limit.py (every request, by address or user),
-- shared/ip_rate_limit.py (a bucket for each address) and services/shared/dts_rate_limiter.py (the time
-- stamps of a minute). Times are in microseconds.
pub mod Window
pub mod Counters
pub mod Address
pub mod Stamps
pub mod Reserve
pub mod Gateway
pub mod Middleware
pub mod InMemory
pub mod Degraded
mod Scenarios
