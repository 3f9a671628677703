-- ===== src/Cooldown.antt =====
-- The cooldown gate (lock/cooldown.py).
pub mod Gate
pub mod Group
pub mod Trade
pub mod Exclusion
pub mod Pair
mod Tests
