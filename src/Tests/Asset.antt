-- ===== src/Tests/Asset.antt =====
-- Examples for the shared rules of internal/asset and for internal/search.
use booth_catalog.Prelude.{
  ℕ, ◌≡◌, ◌≤◌, ◌*◌, ◌↔◌, refl, Bool, true, false, List, [], ◌∷◌, ◌++◌, map, flatten, length, take,
  all, Option, some, ℤ, pos, list_eq, nat_eq,
}
use booth_catalog.Text.{Text, txt, valid_string}
use booth_catalog.Text
use booth_catalog.Regexp
use booth_catalog.Asset.Error.{ok}
use booth_catalog.Asset.Validation.{text}
use booth_catalog.Asset.Validation.Laws.{text_iff, IsText}
use booth_catalog.Asset.Location.{Location, normalize_location, path_contains}
use booth_catalog.Asset.Location
use booth_catalog.Asset.Location.Laws.{
  segments, IsCanonical, trimmed, path_contains_iff, normalize_location_iff,
}
use booth_catalog.Asset.Matching.{AssetType, data_type, code, like_pattern}
use booth_catalog.Asset.Matching.Like.{Like, like_pattern_iff}
use booth_catalog.Asset.Paging.{clamp_limit}
use booth_catalog.Asset.Paging.Laws.{first_pages, first_pages-eq-take}
use booth_catalog.Asset.Hits.{Hit, sort_hits}
use booth_catalog.Search.{Searcher, check_query}
use booth_catalog.Search.Laws.{IsQuery, check_query_iff}
use booth_catalog.Tests.Ascii.{ascii}

path_contains_iff_example :
    (path_contains (txt "raw") (txt "raw/a") ≡ true)
    ↔ ((rest : List Text) × (segments (txt "raw/a") ≡ segments (txt "raw") ++ rest))
path_contains_iff_example = path_contains_iff (txt "raw") (txt "raw/a")

abbrev given : Location
given = record { backend_id = txt "s3"; path = txt "raw/a/" }

abbrev stored : Location
stored = record { backend_id = txt "s3"; path = txt "raw/a" }

normalize_location_iff_example :
    (normalize_location (txt "location") given ≡ ok stored)
    ↔ ((stored ≡ trimmed given) × IsCanonical (trimmed given))
normalize_location_iff_example = normalize_location_iff (txt "location") given stored

given_is_stored : normalize_location (txt "location") given ≡ ok stored
unfolding normalize_location Location.backend_id_re Text.trim_suffix Text.split Text.byte_len
    Text.bytes Text.encode Regexp.matches Regexp.derivative Regexp.nullable Regexp.up_to
    booth_catalog.Prelude.list_beq
given_is_stored = refl

padded-IsQuery : (check_query (txt " a ") true ≡ ok (txt "a")) ↔ IsQuery (txt " a ") true (txt "a")
padded-IsQuery = check_query_iff (txt " a ") true (txt "a")

abbrev orders : Hit
orders = record {
  type = data_type;
  id = txt "1";
  name = txt "Orders";
  description = [];
  owner = [];
  source = [];
  name_match = true;
}

abbrev full : AssetType → Text → Text → List Hit
full t ws q = orders ∷ []

abbrev source : AssetType → Searcher
source t ws q n = ok (take n (sort_hits (full t ws q)))

asked_for : check_query (txt " or ") true ≡ ok (txt "or")
unfolding check_query Text.trim_space Text.trim_left Text.trim_right Text.is_space Text.fields
    Text.fields_from Text.to_lower booth_catalog.Prelude.list_beq booth_catalog.Asset.Matching.terms
asked_for = refl

like_pattern_iff_example :
    Like (like_pattern (txt "50%")) (txt "a 50% b")
    ↔ ((a b : Text) × (txt "a 50% b" ≡ a ++ (txt "50%" ++ b)))
like_pattern_iff_example = like_pattern_iff (txt "50%") (txt "a 50% b") refl

text_iff_example :
    (text (txt "name") (txt " a ") 5 true false ≡ ok (txt "a"))
    ↔ IsText (txt " a ") 5 true false (txt "a")
text_iff_example = text_iff (txt "name") (txt " a ") 5 true false (txt "a")

text_of_a : text (txt "name") (txt " a ") 5 true false ≡ ok (txt "a")
unfolding text Text.trim_space Text.trim_left Text.trim_right Text.is_space Text.is_control
    booth_catalog.Prelude.list_beq
text_of_a = refl

first_pages-eq-take_example :
    first_pages {A = ℕ} 2 (pos 1) (1 ∷ 2 ∷ 3 ∷ [])
    ≡ take {A = ℕ} (2 * clamp_limit (pos 1)) (1 ∷ 2 ∷ 3 ∷ [])
first_pages-eq-take_example = first_pages-eq-take {A = ℕ} 2 (pos 1) (1 ∷ 2 ∷ 3 ∷ [])
