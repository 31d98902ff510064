-- ===== src/Tests.antt =====
-- The theorems at concrete inputs.
pub mod Ascii
mod Asset
mod Data
mod Code
mod Dashboards
mod Auth
mod Startup
mod Api
mod Transport
mod Events
mod Lineage
