-- ===== src/Transport.antt =====
-- Transport: src/runtime/transport.
pub mod Chunked
