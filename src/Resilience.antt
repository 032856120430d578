-- ===== src/Resilience.antt =====
-- Resilience: src/runtime/resilience.
pub mod Coordinator
pub mod Guidance
