-- ===== src/Worker.antt =====
-- One pass of the outbox worker (order_retry_worker.py) over the outbox of order_retry.py.
pub mod Effects
pub mod Reconcile
pub mod Scan
pub mod Replacement
pub mod Observe
pub mod Submit
pub mod Pass
pub mod Safety
pub mod Placement
pub mod Justified
pub mod Agreement
pub mod Returns
pub mod Total
mod Tests
