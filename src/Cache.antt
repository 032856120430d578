-- ===== src/Cache.antt =====
-- The cache of complete scan results, src/runtime/cache/complete_scan_result_cache.cpp.
pub mod Policy
pub mod Store
pub mod Evict
pub mod Newest
pub mod Invariant
pub mod Runs
pub mod Ages
pub mod Keys
mod Examples
