-- ===== src/Planner/Selection.antt =====
-- The choice of an operation for a scan, src/semantics/planner/operation_selection.cpp.
pub mod Select
pub mod Choice
pub mod Outcome
mod Examples
