-- ===== src/Code.antt =====
-- internal/code: the registry of code entries and their versions.
pub mod Model
pub mod Store
pub mod Service
