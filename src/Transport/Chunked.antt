-- ===== src/Transport/Chunked.antt =====
-- The decoder of the HTTP chunked coding, src/runtime/transport/http_chunk_decoder.cpp.
pub mod Control
pub mod Line
pub mod Body
pub mod Fuel
pub mod Bounds
pub mod Coding
pub mod RoundTrip
mod Examples
