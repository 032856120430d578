-- ===== src/Pagination/Header.antt =====
-- The parser of Link header fields, src/runtime/pagination/link_header.cpp. Text is a list of bytes; an
-- offset into a string is the text that is left.
pub mod Scan
pub mod Parser
pub mod Fuel
pub mod Render
pub mod Values
pub mod Parameters
pub mod Links
pub mod RoundTrip
pub mod Empty
pub mod Ends
mod Examples
