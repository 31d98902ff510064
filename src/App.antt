-- ===== src/App.antt =====
-- internal/app/app.go: the three services and the search over them, on the in-memory stores. A service
-- keeps nothing beside its store but the limit of a code version's source.
pub mod Found
pub mod Lineage
use booth_catalog.Prelude.{Bool, List, map, Option, none, some, ℤ, ℕ}
use booth_catalog.Text.{Text, Casing}
use booth_catalog.Asset.Error.{Result, ok, err, not_found, ◌>>=◌, ◌>>◌}
use booth_catalog.Asset.Matching.{AssetType, data_type, code, dashboard}
use booth_catalog.Data.Model.{Dataset}
use booth_catalog.Data.Store as DataStore
use booth_catalog.Data.Store.Queries
use booth_catalog.Data.Service.{containing_location}
use booth_catalog.Code.Store as CodeStore
use booth_catalog.Code.Service.{max_source_of}
use booth_catalog.Dashboards.Store as DashboardStore
use booth_catalog.Dashboards.Service.{DatasetRef, DatasetResolver}
use booth_catalog.Search.{Searcher, Answer, search_all}

pub record Services : Type 0 where
  pub datasets : DataStore.MemoryStore
  pub entries : CodeStore.MemoryStore
  pub boards : DashboardStore.MemoryStore
  pub max_source : ℕ

-- NewMemory
abbrev pub new_memory : ℤ → Services
new_memory max_code_source = record {
  datasets = DataStore.new_store;
  entries = CodeStore.new_store;
  boards = DashboardStore.new_store;
  max_source = max_source_of max_code_source;
}

-- Services.Ping, by what the three stores answer.
abbrev pub ping : Result (Unit {0}) → Result (Unit {0}) → Result (Unit {0}) → Result (Unit {0})
ping of_data of_code of_dashboards = of_data >> (of_code >> of_dashboards)

abbrev pub ref_of : Dataset → DatasetRef
ref_of d = record { id = d.id; name = d.name }

-- ErrNotFound is an answer, and any other error is passed on.
abbrev pub ref_or_none : Result Dataset → Result (Option DatasetRef)
ref_or_none (ok d) = ok (some (ref_of d))
ref_or_none (err not_found) = ok none
ref_or_none (err e) = err e

module _ ⦃u : Casing⦄ where
  -- datasetResolver
  unfoldable pub dataset_resolver : DataStore.MemoryStore → DatasetResolver
  dataset_resolver m = record {
    by_id = λ ws id. ref_or_none (DataStore.get m ws id);
    by_location = λ ws loc. containing_location m ws loc >>= λ found. ok (map ref_of found);
  }

  -- The map of searchers that New registers.
  abbrev pub searchers : Services → AssetType → Option Searcher
  searchers s data_type = some (λ ws query limit. ok (Queries.search s.datasets ws query limit))
  searchers s code = some (λ ws query limit. ok (CodeStore.search s.entries ws query limit))
  searchers s dashboard =
      some (λ ws query limit. ok (DashboardStore.search s.boards ws query limit))

  unfoldable pub search : Services → Text → Text → List AssetType → ℤ → Result Answer
  search s ws raw asked limit = search_all (searchers s) ws raw asked limit
