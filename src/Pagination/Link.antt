-- ===== src/Pagination/Link.antt =====
-- The traversal by page numbers, src/runtime/pagination/link_pagination.cpp.
pub mod Target
pub mod State
pub mod Progress
pub mod Continuation
pub mod Fields
mod Examples
