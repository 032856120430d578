-- ===== src/Resilience/Coordinator.antt =====
-- The coordinator of rate-limited requests, src/runtime/resilience/rate_limit_coordinator.cpp.
pub mod Buckets
pub mod State
pub mod Calls
pub mod Invariant
pub mod Kept
pub mod Sound
pub mod Holds
pub mod Exclusive
pub mod Grants
pub mod Waits
pub mod Keys
pub mod SameKeys
pub mod KeyEquality
mod Examples
