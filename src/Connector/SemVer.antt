-- ===== src/Connector/SemVer.antt =====
-- Package versions, src/connector/model/package_semver.cpp. Text is a list of bytes.
pub mod Numeral
pub mod Version
pub mod Grammar
pub mod Order
mod Examples
