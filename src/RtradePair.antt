-- ===== src/RtradePair.antt =====
-- The coordinator of one round of two opposite quotes (strategies/rtrade_pair.py).
pub mod Types
pub mod Prices
pub mod Orders
pub mod Recovery
pub mod Start
pub mod Exit
pub mod Stop
pub mod Step
pub mod Ledger
pub mod Quiet
pub mod Closing
pub mod Stopped
pub mod Retried
pub mod Settled
pub mod Traded
pub mod Stepped
pub mod Opened
pub mod Rounds
pub mod Target
pub mod Checkpoint
pub mod Restored
mod Tests
