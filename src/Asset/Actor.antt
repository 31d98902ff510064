-- ===== src/Asset/Actor.antt =====
-- Actor of internal/asset/asset.go: the caller on whose behalf a write happens.
use booth_catalog.Text.{Text}

pub record Actor : Type 0 where
  pub subject : Text
  pub display_name : Text
