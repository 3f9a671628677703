-- ===== src/Outbox.antt =====
-- The durable order outbox (order_retry.py).
pub mod Types
pub mod Guards
pub mod Due
pub mod File
pub mod Request
pub mod Capacity
pub mod Enqueue
pub mod Response
pub mod Claim
pub mod Complete
pub mod Status
pub mod Cleanup
pub mod Durability
pub mod Exclusion
pub mod Survival
pub mod Eviction
pub mod Room
pub mod Intake
pub mod Delivery
pub mod Ownership
pub mod PriceGate
pub mod Dispatch
pub mod Replacement
pub mod Samples
mod Tests
