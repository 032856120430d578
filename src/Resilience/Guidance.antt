-- ===== src/Resilience/Guidance.antt =====
-- Rate-limit guidance in response headers.
pub mod Calendar
pub mod Dates
pub mod Forms
pub mod Parse
pub mod Latest
pub mod Decimal
pub mod Civil
pub mod Rolling
mod Examples
