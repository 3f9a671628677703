-- ===== src/Lifecycle.antt =====
-- The lifecycle of one order that a strategy owns (`TrackedOrderLifecycle` of order_retry.py).
pub mod Effects
pub mod Submit
pub mod Reconcile
pub mod Ledger
pub mod Settlement
pub mod Reconciled
mod Tests
