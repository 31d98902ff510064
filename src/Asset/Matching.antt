-- ===== src/Asset/Matching.antt =====
-- Text matching (internal/asset/asset.go): `Terms`, `MatchesAll` and `LikePattern`, and the type
-- filter, `ParseTypes`.
pub mod Like
use booth_catalog.Prelude.{
  ℕ, Bool, true, false, ◌&&◌, ◌||◌, List, [], ◌∷◌, ◌++◌, map, ◌==◌, Eq, nat_eq, list_eq, any, all,
  if◌then◌else◌, ◌≡◌, ◌↔◌, arith,
}
use booth_catalog.Text.{Text, txt, Casing, to_lower, fields, contains, split, trim_space, is_rune}
use booth_catalog.Asset.Error.{Result, ok, err, invalid, ◌>>=◌}

pub data AssetType : Type 0 where
  data_type code dashboard : AssetType

-- The order in which the UI presents the types.
abbrev pub types : List AssetType
types = data_type ∷ code ∷ dashboard ∷ []

abbrev pub asset_type_beq : AssetType → AssetType → Bool
asset_type_beq data_type data_type = true
asset_type_beq code code = true
asset_type_beq dashboard dashboard = true
asset_type_beq _ _ = false

pub asset_type_beq_iff : (a b : AssetType) → (asset_type_beq a b ≡ true) ↔ (a ≡ b)
asset_type_beq_iff a b = ground arith

instance abbrev pub asset_type_eq : Eq AssetType
asset_type_eq = record { beq = asset_type_beq; beq_iff = asset_type_beq_iff }

-- The `switch` over the part's text.
unfoldable pub type_of_text : Text → Result AssetType
type_of_text part =
    if part == txt "data"
    then ok data_type
    else if part == txt "code"
    then ok code
    else if part == txt "dashboard"
    then ok dashboard
    else err (invalid (txt "types"))

-- The loop: `out` is what has been taken so far, and `seen` holds the same types.
unfoldable pub collect_types : List AssetType → List Text → Result (List AssetType)
unfolding type_of_text trim_space
collect_types out [] = ok out
collect_types out (part ∷ parts) = do
  t ← type_of_text (trim_space part)
  collect_types (if any (λ s. s == t) out then out else out ++ t ∷ []) parts

unfoldable pub parse_types : Text → Result (List AssetType)
unfolding collect_types split
parse_types csv = if trim_space csv == [] then ok types else collect_types [] (split b',' csv)

module _ ⦃u : Casing⦄ where
  unfoldable pub terms : Text → List Text
  unfolding to_lower fields
  terms q = fields (to_lower q)

  unfoldable pub matches_all : List Text → List Text → Bool
  unfolding to_lower contains
  matches_all ts texts = all (λ t. any (λ s. contains (to_lower s) t) texts) ts

-- One rune of a term, escaped; `range` reads a stray byte as U+FFFD.
abbrev pub escape : ℕ → Text
escape r =
    if r == b'\\' || r == b'%' || r == b'_'
    then b'\\' ∷ r ∷ []
    else (if is_rune r then r else 0xFFFD) ∷ []

unfoldable pub escape_all : Text → Text
escape_all [] = []
escape_all (r ∷ rs) = escape r ++ escape_all rs

unfoldable pub like_pattern : Text → Text
unfolding escape_all
like_pattern term = b'%' ∷ (escape_all term ++ b'%' ∷ [])
