-- ===== src/Dashboards.antt =====
-- internal/dashboards: the index of the dashboards that other modules publish.
pub mod Model
pub mod Store
pub mod Service
