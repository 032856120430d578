-- ===== src/Pagination/Uri.antt =====
-- The validators of URIs, src/runtime/pagination/uri_reference.cpp. Text is a list of bytes; where the
-- source works on offsets into one string, the lists are the pieces that the offsets delimit.
pub mod Text
pub mod Address
pub mod Reference
pub mod Pieces
pub mod Grammar
pub mod Components
pub mod Sound
pub mod Literals
pub mod Marks
pub mod Complete
pub mod Equivalence
pub mod Enclosed
mod Examples
pub mod Literal
pub mod Octets
pub mod Groups
pub mod Compression
pub mod Segments
pub mod Hosts
