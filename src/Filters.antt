-- ===== src/Filters.antt =====
-- The exchange filters of Binance orders (providers/binance_filters.py).
pub mod Rules
pub mod Normalize
pub mod Steps
pub mod Admitted
pub mod Market
mod Tests
