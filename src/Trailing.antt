-- ===== src/Trailing.antt =====
-- The trailing stop with its re-buy (trailing_core.py).
pub mod Types
pub mod Rules
pub mod Pending
pub mod Rebuy
pub mod Process
pub mod Orders
pub mod Sent
pub mod Visited
pub mod Ticks
pub mod Fills
mod Tests
