-- ===== src/Search.antt =====
-- internal/search: a query is checked, asked of each asset type, and the answers are merged.
pub mod Laws
use booth_catalog.Prelude.{
  ℕ, Bool, true, List, [], ◌∷◌, ◌++◌, map, ℤ, length, take, leb, ltb, if◌then◌else◌, Option, none,
  some, ◌==◌, nat_eq, list_eq,
}
use booth_catalog.Text.{Text, txt, Casing, trim_space}
use booth_catalog.Asset.Error.{Error, Result, ok, err, invalid, failure, ◌>>=◌, ◌>>◌, refuse_if}
use booth_catalog.Asset.Matching.{AssetType, types, terms, asset_type_eq}
use booth_catalog.Asset.Paging.{clamp_limit}
use booth_catalog.Asset.Hits.{Hit, sort_hits}

abbrev pub max_query_len : ℕ
max_query_len = 200

abbrev pub max_terms : ℕ
max_terms = 10

-- One asset type's own search: workspace, query, limit.
abbrev pub Searcher : Type 0
Searcher = Text → Text → ℕ → Result (List Hit)

pub record Answer : Type 0 where
  pub query : Text
  pub hits : List Hit

-- The searchers run concurrently and each writes its own slot, so that the order in which they
-- end does not show; a type with no searcher is refused before any error of one is reported.
unfoldable pub find_all :
    (AssetType → Option Searcher)
    → Text
    → Text
    → ℕ
    → List AssetType
    → Result (List (Result (List Hit)))
find_all sources ws query limit [] = ok []
find_all sources ws query limit (t ∷ ts) = elim (sources t) [
  | none ↦ err (failure (txt "search: no searcher registered"))
  | some src ↦ do rest ← find_all sources ws query limit ts; ok (src ws query limit ∷ rest)
]

-- `if len(types) == 0 { types = asset.Types }`
abbrev pub wanted : List AssetType → List AssetType
wanted [] = types
wanted (t ∷ ts) = t ∷ ts

-- The loop that reports the first error, and appends the hits otherwise.
abbrev pub merge : List (Result (List Hit)) → Result (List Hit)
merge [] = ok []
merge (r ∷ rs) = do hits ← r; rest ← merge rs; ok (hits ++ rest)

module _ ⦃u : Casing⦄ where
  -- `CheckQuery`, once the query has been trimmed.
  abbrev pub check_trimmed : Text → Bool → Result Text
  check_trimmed [] required = if required then err (invalid (txt "q")) else ok []
  check_trimmed (c ∷ cs) required = do
    refuse_if (ltb max_query_len (length (c ∷ cs))) (txt "q")
    refuse_if (ltb max_terms (length (terms (c ∷ cs)))) (txt "q")
    ok (c ∷ cs)

  unfoldable pub check_query : Text → Bool → Result Text
  check_query raw required = check_trimmed (trim_space raw) required

  unfoldable pub search_all :
      (AssetType → Option Searcher) → Text → Text → List AssetType → ℤ → Result Answer
  search_all sources ws raw asked limit_asked = do
    query ← check_query raw true
    let limit = clamp_limit limit_asked
    results ← find_all sources ws query limit (wanted asked)
    hits ← merge results
    ok (record { query = query; hits = take limit (sort_hits hits) })
