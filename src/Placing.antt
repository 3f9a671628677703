-- ===== src/Placing.antt =====
-- The pipeline in front of every order of a venue that has no guards of its own (instrument.py), with the
-- guards (order_guard.py) and the decision on the quantity (providers/quantity.py) that it runs.
pub mod Types
pub mod Guard
pub mod Quantity
pub mod Setting
pub mod Checks
pub mod Slot
pub mod Tracking
pub mod Final
pub mod Place
pub mod Bounds
pub mod Window
pub mod Bounded
pub mod Decided
pub mod Weighted
pub mod Guarded
pub mod Recorded
pub mod Slotted
pub mod Retained
pub mod Tracked
pub mod Dispatched
pub mod Sending
pub mod Spacing
pub mod Keeping
mod Tests
