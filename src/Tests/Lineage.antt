-- ===== src/Tests/Lineage.antt =====
-- Examples for the lineage of internal/app and internal/dashboards.
use booth_catalog.Prelude.{
  ◌≡◌, ◌≢◌, refl, Bool, true, false, List, [], ◌∷◌, none, any, ◌==◌, list_eq, nat_eq, pos, All,
  arith,
}
use booth_catalog.Prelude.GoMap
use booth_catalog.Text.{Text, txt}
use booth_catalog.Asset.Error.{ok}
use booth_catalog.Asset.Location.{Location, normalize_location}
use booth_catalog.Data.Model.{Dataset, TableUpsert}
use booth_catalog.Data.Store as DataStore
use booth_catalog.Data.Store.Events
use booth_catalog.Data.Store.Kept as Kept
use booth_catalog.Data.Store.Reach.{IsNew, start, step, applies_table, Reachable-IsWellFormed}
use booth_catalog.Dashboards.Model.{SourceType, Source, bare, Dashboard, Upsert}
use booth_catalog.Dashboards.Model.Canonical.{IsCanonical}
use booth_catalog.Dashboards.Store as DashboardStore
use booth_catalog.Dashboards.Store.Newest.{apply-register}
use booth_catalog.Dashboards.Store.Register as Register
use booth_catalog.Dashboards.Service.{DatasetRef, Lineage}
use booth_catalog.Dashboards.Service as DashboardService
use booth_catalog.Dashboards.Service.Sourced.{
  HasCanonicalSources, new_store-HasCanonicalSources, store_apply-HasCanonicalSources,
}
use booth_catalog.App.{Services, new_memory, dataset_resolver}
use booth_catalog.App.Lineage.{lineage-agree}
use booth_catalog.Tests.Ascii.{ascii}

abbrev event : TableUpsert
event = record {
  workspace = txt "w";
  source_module = txt "lake";
  namespace = txt "n";
  name = txt "t";
  uuid = txt "u";
  location = record { backend_id = txt "s3"; path = txt "raw" };
  schema = [];
  current_snapshot_id = none;
  at = 5;
  new_id = txt "d1";
  received_at = 5;
}

abbrev one_table : DataStore.MemoryStore
one_table = (Events.apply_table DataStore.new_store event).1

abbrev d1_is_new : IsNew DataStore.new_store (txt "w") (txt "d1")
d1_is_new = (unfold GoMap.get in refl, λ h. ground arith)

abbrev one_table-IsWellFormed : Kept.IsWellFormed one_table
one_table-IsWellFormed =
    Reachable-IsWellFormed one_table (step start (applies_table event d1_is_new))

abbrev by_id : Source
by_id = record (bare SourceType.dataset) { dataset_id = txt "d2" }

abbrev located : Source
located = record (bare SourceType.location) { backend_id = txt "s3"; path = txt "raw/x" }

abbrev upsert : Upsert
upsert = record {
  workspace = txt "w";
  source_module = txt "superset";
  external_id = txt "1";
  name = txt "n";
  description = [];
  owner = [];
  path = [];
  lineage_complete = true;
  sources = by_id ∷ located ∷ [];
  at = 7;
  new_id = txt "b1";
  received_at = 8;
}

located_is_canonical :
    normalize_location
      (txt "location")
      (record { backend_id = located.backend_id; path = located.path })
    ≡ ok (record { backend_id = located.backend_id; path = located.path })
unfolding normalize_location booth_catalog.Regexp.matches booth_catalog.Asset.Location.backend_id_re
    booth_catalog.Regexp.up_to booth_catalog.Text.byte_len booth_catalog.Text.trim_suffix
    booth_catalog.Text.split booth_catalog.Prelude.list_beq
located_is_canonical = refl

by_id-IsCanonical : IsCanonical by_id
by_id-IsCanonical e = absurd (ground arith)

abbrev boards : DashboardStore.MemoryStore
boards = (DashboardStore.apply DashboardStore.new_store upsert).1

abbrev boards-HasCanonicalSources : HasCanonicalSources boards
boards-HasCanonicalSources =
    store_apply-HasCanonicalSources DashboardStore.new_store upsert new_store-HasCanonicalSources
      (by_id-IsCanonical, ((λ e. located_is_canonical), tt))

abbrev boards-IsWellFormed : Register.IsWellFormed boards
boards-IsWellFormed =
    (apply-register DashboardStore.new_store upsert Register.new_store-IsWellFormed).0

abbrev catalogs : Services
catalogs = record (new_memory (pos 0)) { datasets = one_table; boards = boards }

abbrev table : Dataset
table = Events.table_row event (txt "d1") 5

abbrev board : Dashboard
board =
    DashboardStore.refreshed upsert
      (DashboardStore.blank (txt "b1") (txt "w") (txt "superset") (txt "1") 8)

abbrev lineage : Lineage
lineage = record {
  complete = true;
  sources =
      record { source = by_id; datasets = [] }
      ∷ record { source = located; datasets = record { id = txt "d1"; name = table.name } ∷ [] }
      ∷ [];
}

table_is_visible : DataStore.get catalogs.datasets (txt "w") table.id ≡ ok table
unfolding DataStore.get DataStore.lookup GoMap.get Events.apply_table DataStore.find_table
    GoMap.find DataStore.name_taken booth_catalog.Prelude.list_beq GoMap.put
table_is_visible = refl

board_is_opened :
    DashboardService.get (dataset_resolver catalogs.datasets) catalogs.boards (txt "w") (txt "b1")
    ≡ ok (board, lineage)
unfolding DashboardService.get DashboardStore.get DashboardStore.live GoMap.get DashboardStore.apply
    DashboardStore.find GoMap.find booth_catalog.Prelude.list_beq GoMap.put DashboardService.resolve
    DashboardService.resolve_all DashboardService.datasets_of dataset_resolver DataStore.get
    DataStore.lookup Events.apply_table DataStore.find_table DataStore.name_taken
    booth_catalog.Asset.Location.backend_id_re normalize_location
    booth_catalog.Asset.Location.path_contains booth_catalog.Data.Service.containing_location
    booth_catalog.Data.Store.Queries.containing_location booth_catalog.Data.Store.Queries.select
    booth_catalog.Data.Store.Queries.sort_by_name GoMap.delete booth_catalog.Prelude.insert_sorted
    booth_catalog.Prelude.sort_stable booth_catalog.Regexp.derivative booth_catalog.Regexp.matches
    booth_catalog.Regexp.nullable booth_catalog.Regexp.up_to booth_catalog.Text.byte_len
    booth_catalog.Text.bytes booth_catalog.Text.encode booth_catalog.Text.has_prefix
    booth_catalog.Text.split booth_catalog.Text.trim_suffix
board_is_opened = refl

lineage-agree_example :
    any
      (λ x. x.id == txt "b1")
      (DashboardStore.reading_dataset boards (txt "w") (txt "d1") table.location)
    ≡ any (λ x. any (λ r. r.id == txt "d1") x.datasets) lineage.sources
lineage-agree_example =
    lineage-agree catalogs (txt "w") (txt "b1") table board lineage one_table-IsWellFormed
      boards-IsWellFormed table_is_visible board_is_opened boards-HasCanonicalSources
