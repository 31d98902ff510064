-- ===== src/Data.antt =====
-- internal/data: the dataset catalog.
pub mod Model
pub mod Input
pub mod Upsert
pub mod Store
pub mod Service
