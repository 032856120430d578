-- ===== src/Planner.antt =====
-- Planner: src/semantics/planner.
pub mod Selection
