-- ===== src/App/Found.antt =====
-- The search over the three in-memory catalogs together (internal/app and internal/search).
use booth_catalog.Prelude.{
  ℕ, zero, suc, ◌≤◌, true, not, ◌&&◌, List, [], map, take, flatten, ℤ, some, ◌==◌, ◌≡◌, refl, ap,
  arith, nat_eq, list_eq,
}
use booth_catalog.Text.{Text, Casing}
use booth_catalog.Asset.Error.{ok}
use booth_catalog.Asset.Matching.{AssetType, data_type, code, dashboard, terms, matches_all}
use booth_catalog.Asset.Paging.{clamp_limit}
use booth_catalog.Asset.Hits.{Hit, sort_hits}
use booth_catalog.Data.Store.Queries
use booth_catalog.Code.Store as CodeStore
use booth_catalog.Dashboards.Store as DashboardStore
use booth_catalog.Search.{Searcher, check_query, wanted}
use booth_catalog.Search.Laws.{IsTopOf, search_all-eq-top}
use booth_catalog.App.{Services, searchers, search}

module _ ⦃u : Casing⦄ (s : Services) where
  -- Every record of a type that matches, with no order and no limit.
  abbrev pub matching : AssetType → Text → Text → List Hit
  matching data_type ws query =
      let ts = terms query in
      map (Queries.hit_of ts) (
        Queries.selected s.datasets ws
          (λ d. not (ts == []) && matches_all ts (Queries.search_text d)))
  matching code ws query =
      let ts = terms query in
      map (CodeStore.hit_of ts) (
        CodeStore.select (λ e. not (ts == []) && matches_all ts (CodeStore.search_text e))
          (s.entries ws))
  matching dashboard ws query =
      let ts = terms query in
      map (DashboardStore.hit_of ts) (
        DashboardStore.selected s.boards ws
          (λ d. not (ts == []) && matches_all ts (DashboardStore.search_text d)))

  cut-take : (n : ℕ) (hits : List Hit) → 1 ≤ n → Queries.cut n hits ≡ take n hits
  cut-take zero hits h = absurd (omega arith)
  cut-take (suc n) hits h = refl

  registered :
      (t : AssetType) → (src : Searcher) × (searchers s t ≡ some src) × IsTopOf src (matching t)
  unfolding Queries.search CodeStore.search DashboardStore.search
  registered data_type = (_, refl, record { answers = λ ws query n h. ap ok (cut-take n _ h) })
  registered code = (_, refl, record { answers = λ ws query n h. ap ok (cut-take n _ h) })
  registered dashboard = (_, refl, record { answers = λ ws query n h. ap ok (cut-take n _ h) })

  -- A search over the in-memory catalogs answers the first records, up to the clamped limit and in the
  -- order of hits, of all the records of the types asked for that match the accepted query.
  pub search-eq-top :
      (ws raw query : Text) (asked : List AssetType) (limit : ℤ)
      → check_query raw true ≡ ok query
      → search s ws raw asked limit
        ≡ ok (record {
          query = query;
          hits =
              take
                (clamp_limit limit)
                (sort_hits (flatten (map (λ t. matching t ws query) (wanted asked))));
        })
  unfolding search
  search-eq-top ws raw query asked limit h =
      search_all-eq-top (searchers s) matching registered ws raw query asked limit h
