-- ===== src/Decoding.antt =====
-- Decoding: src/runtime/decoding.
pub mod StrictJson
