-- ===== src/Api/Reading.antt =====
-- internal/api/server.go: the handlers that read, over the in-memory catalogs.
use booth_catalog.Prelude.{◌||◌, [], ℕ, Bool, true, false, Option, none, some, ℤ}
use booth_catalog.Text.{Text, txt, Casing}
use booth_catalog.Asset.Error.{Result, ok, err, ◌>>=◌}
use booth_catalog.Asset.Matching.{parse_types}
use booth_catalog.Data.Store as DataStore
use booth_catalog.Data.Store.Queries
use booth_catalog.Data.Service as DataService
use booth_catalog.Code.Store as CodeStore
use booth_catalog.Code.Service as CodeService
use booth_catalog.Dashboards.Store as DashboardStore
use booth_catalog.Dashboards.Service as DashboardService
use booth_catalog.Search.{check_query}
use booth_catalog.App.{Services, dataset_resolver}
use booth_catalog.App
use booth_catalog.Auth.{Identity}
use booth_catalog.Events.Transport.Session.{State, subscribed}
use booth_catalog.Api.{
  Query, first_of, Response, reply, respond, write_failure, write_error, paging, dataset_resource,
  code_resource, version_resource, dashboard_resource,
}
use booth_catalog.Api

-- handleHealthz, by what Ping answers and the states of the three subscriptions, of which any may be
-- disabled: the status, and whether the body calls the catalog degraded.
abbrev pub is_degraded : Option State → Bool
is_degraded none = false
is_degraded (some subscribed) = false
is_degraded (some s) = true

-- The states of the subscriptions that are not disabled.
pub record Subscriptions : Type 0 where
  pub events : Option State
  pub table_events : Option State
  pub database_table_events : Option State

unfoldable pub handle_healthz : Result (Unit {0}) → Subscriptions → ℕ × Bool
handle_healthz (err e) subs = (503, false)
handle_healthz (ok done) subs = (
  200,
  is_degraded subs.events
      || (is_degraded subs.table_events || is_degraded subs.database_table_events),
)

unfoldable pub handle_config : Subscriptions → Services → Response
handle_config subs s =
    reply 200 (Api.config s.max_source subs.events subs.table_events subs.database_table_events)

-- What a list handler reads from its query before it asks the catalog.
abbrev pub Asked : Type 0
Asked = ℤ × ℤ × Text

module _ ⦃u : Casing⦄ where
  -- paging and then search.CheckQuery
  unfoldable pub asked : Query → Result Asked
  asked q = do p ← paging q; text ← check_query (first_of (q (txt "q"))) false; ok (p.0, p.1, text)

  module _ (s : Services) (id : Identity) where
    unfoldable pub handle_search : Query → Response
    handle_search q = respond [] 200 Api.answer (do
      types ← parse_types (first_of (q (txt "types")))
      p ← paging q
      App.search s id.workspace (first_of (q (txt "q"))) types p.0)

    unfoldable pub handle_list_datasets : Query → Response
    handle_list_datasets q = respond dataset_resource 200 Api.datasets (do
      a ← asked q
      DataService.list s.datasets id.workspace (record {
        query = a.2;
        tags = q (txt "tag");
        owner = first_of (q (txt "owner"));
        limit = a.0;
        offset = a.1;
      }))

    unfoldable pub handle_get_dataset : Text → Response
    handle_get_dataset ds =
        respond dataset_resource 200 Api.dataset (DataStore.get s.datasets id.workspace ds)

    unfoldable pub handle_dataset_lineage : Text → Response
    handle_dataset_lineage ds = respond dataset_resource 200 Api.readers (do
      d ← DataStore.get s.datasets id.workspace ds
      ok (DashboardStore.reading_dataset s.boards id.workspace d.id d.location))

    unfoldable pub handle_tags : Response
    handle_tags = reply 200 (Api.tags (Queries.tags s.datasets id.workspace))

    unfoldable pub handle_list_code : Query → Response
    handle_list_code q = respond code_resource 200 Api.entries (do
      a ← asked q
      ok (
          CodeStore.list s.entries id.workspace (record {
            query = a.2;
            owner = first_of (q (txt "owner"));
            language = first_of (q (txt "language"));
            limit = a.0;
            offset = a.1;
          })))

    unfoldable pub handle_get_code : Text → Response
    handle_get_code e = respond code_resource 200 Api.entry (CodeStore.get s.entries id.workspace e)

    unfoldable pub handle_code_versions : Text → Response
    handle_code_versions e =
        respond code_resource 200 Api.versions (CodeStore.versions s.entries id.workspace e)

    unfoldable pub handle_get_code_version : Text → Text → Response
    handle_get_code_version e v =
        respond version_resource 200 Api.version
          (CodeService.get_version s.entries id.workspace e v)

    unfoldable pub handle_list_dashboards : Query → Response
    handle_list_dashboards q = respond dashboard_resource 200 Api.dashboards (do
      a ← asked q
      ok (
          DashboardStore.list s.boards id.workspace (record {
            query = a.2;
            owner = first_of (q (txt "owner"));
            source_module = first_of (q (txt "source"));
            limit = a.0;
            offset = a.1;
          })))

    unfoldable pub handle_get_dashboard : Text → Response
    handle_get_dashboard b =
        respond dashboard_resource 200 (λ (d, lineage). Api.dashboard d lineage)
          (DashboardService.get (dataset_resolver s.datasets) s.boards id.workspace b)
