-- ===== src/Pagination.antt =====
-- Pagination: src/runtime/pagination.
pub mod Cursor
pub mod Link
pub mod Uri
pub mod Header
