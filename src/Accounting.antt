-- ===== src/Accounting.antt =====
-- src/runtime/policy/scan_resource_accounting.cpp and its header.
pub mod State
pub mod Steps
pub mod Attempts
pub mod Commits
pub mod Waits
pub mod Invariant
pub mod Runs
pub mod Ended
pub mod Growth
pub mod Retry
mod Examples
