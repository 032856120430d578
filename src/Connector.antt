-- ===== src/Connector.antt =====
-- Connector: src/connector.
pub mod SemVer
