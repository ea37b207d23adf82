-- ===== src/Numbering.antt =====
-- shared/numbering.py: official numbers, reserved, confirmed, cancelled and recycled.
pub mod Format
pub mod Tables
pub mod Queries
pub mod Reserve
pub mod Special
pub mod Entry
pub mod Lifecycle
pub mod Counting
pub mod Sequence
pub mod Numbers
pub mod Unique
pub mod Lanes
pub mod LaneReserve
pub mod Runs
pub mod Permanent
pub mod Tickets
pub mod Retry
pub mod Recycle
pub mod Lost
pub mod Blocked
pub mod Takeover
pub mod Distinct
mod Scenarios
