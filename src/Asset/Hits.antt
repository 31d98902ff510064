-- ===== src/Asset/Hits.antt =====
-- Search results and their order (internal/asset/asset.go): `Hit` and `SortHits`.
pub mod Laws
use booth_catalog.Prelude.{
  ℕ, Bool, true, false, ◌&&◌, ◌||◌, not, List, ◌==◌, bool_eq, nat_eq, list_eq, ltb, if◌then◌else◌,
  sort_stable,
}
use booth_catalog.Text.{Text, txt, Casing, to_lower, text_lt}
use booth_catalog.Asset.Matching.{AssetType, data_type, code, dashboard, asset_type_eq}

pub record Hit : Type 0 where
  pub type : AssetType
  pub id : Text
  pub name : Text
  pub description : Text
  pub owner : Text
  pub source : Text
  pub name_match : Bool

-- The wire name of a type, which is what `<` compares.
abbrev pub type_text : AssetType → Text
type_text data_type = txt "data"
type_text code = txt "code"
type_text dashboard = txt "dashboard"

module _ ⦃u : Casing⦄ where
  unfoldable pub hit_less : Hit → Hit → Bool
  hit_less a b =
      let an = to_lower a.name in
      let bn = to_lower b.name in
      if not (a.name_match == b.name_match)
      then a.name_match
      else if not (an == bn)
      then text_lt an bn
      else if not (a.type == b.type)
      then text_lt (type_text a.type) (type_text b.type)
      else text_lt a.id b.id

  unfoldable pub sort_hits : List Hit → List Hit
  sort_hits hits = sort_stable hit_less hits
