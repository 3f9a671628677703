-- ===== src/RtradeStore.antt =====
-- The store of the rounds and their intents (rtrade_pair_store.py).
pub mod Types
pub mod Validate
pub mod Store
pub mod Unfinished
pub mod Intents
pub mod Refined
pub mod Checked
pub mod Returned
mod Tests
