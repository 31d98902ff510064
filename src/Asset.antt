-- ===== src/Asset.antt =====
-- internal/asset: the small kernel that the three catalogs share.
pub mod Actor
pub mod Error
pub mod Validation
pub mod Location
pub mod Matching
pub mod Paging
pub mod Hits
