-- ===== src/Decoding/StrictJson.antt =====
-- The strict JSON reader.
pub mod Reader
pub mod Strings
pub mod Skips
pub mod Keys
pub mod Numbers
pub mod SkipNumbers
pub mod Values
pub mod Takes
pub mod Returns
pub mod Agree
pub mod KeyBytes
pub mod Copies
pub mod Twins
pub mod Nesting
pub mod Utf8
pub mod Tokens
mod Examples
