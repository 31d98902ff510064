-- ===== src/System/Messages.antt =====
-- What a message leaves (internal/events over the in-memory catalogs).
use booth_catalog.Prelude.{Bool, if◌then◌else◌, true, false, ◌==◌, nat_eq, list_eq, ◌⊎◌}
use booth_catalog.Text.{Text}
use booth_catalog.Asset.Error.{Result, with_value-holds}
use booth_catalog.Data.Model.{Time}
use booth_catalog.Data.Store as DataStore
use booth_catalog.Data.Store.Kept as Kept
use booth_catalog.Data.Service as DataService
use booth_catalog.Data.Service.Kept.{
  service_apply_table-IsWellFormed, service_remove_table-IsWellFormed,
  service_apply_postgres-IsWellFormed, service_remove_postgres-IsWellFormed,
}
use booth_catalog.Data.Upsert.{truncate}
use booth_catalog.Dashboards.Model
use booth_catalog.Dashboards.Store as DashboardStore
use booth_catalog.Dashboards.Store.Register as Register
use booth_catalog.Dashboards.Store.Newest.{apply-register, remove-register}
use booth_catalog.Dashboards.Service as DashboardService
use booth_catalog.Dashboards.Service.Sourced.{
  HasCanonicalSources, apply-HasCanonicalSources, remove-HasCanonicalSources,
}
use booth_catalog.Events.{
  Payload, Envelope, Verdict, Reading, read, settle, verdict_on, table_verdict_on,
}
use booth_catalog.Events
use booth_catalog.Events.Dashboards
use booth_catalog.Events.Tables
use booth_catalog.Events.DatabaseTables
use booth_catalog.System.{IsUnused}

-- What the catalog's call keeps, the handling of a message keeps.
settle-holds :
    {D S : Type 0} (P : S → Type 0) (verdict : Text → Text → Result Bool → Verdict)
    (call : S → Text → Text → Envelope → D → Result Bool × S) (s : S) (r : Reading D)
    → P s
    → ((ws et : Text) (env : Envelope) (d : D) → P (call s ws et env d).1)
    → P (settle verdict call s r).1
settle-holds P verdict call s (Events.refused why) before h = before
settle-holds P verdict call s (Events.accepted ws et env d) before h = h ws et env d

if-holds :
    {S : Type 0} (P : S → Type 0) (b : Bool) (x y : Result Bool × S)
    → P x.1
    → P y.1
    → P (if b then x else y).1
if-holds P true x y h k = h
if-holds P false x y h k = k

module _ (new_id : Text) (now : Time) (decode_envelope : Payload → Text ⊎ Envelope) (subject : Text)
    (p : Payload) where
  module _ (m : DataStore.MemoryStore) (before : Kept.IsWellFormed m)
      (new : IsUnused new_id m) where
    pub handle_table-IsWellFormed :
        (decode : Payload → Text ⊎ Tables.TableData)
        → Kept.IsWellFormed
            (Tables.handle (Tables.memory_catalog new_id now) decode_envelope decode m subject p).1
    unfolding Tables.handle
    handle_table-IsWellFormed decode =
        settle-holds Kept.IsWellFormed table_verdict_on
          (Tables.call (Tables.memory_catalog new_id now)) m
          (read decode Tables.parse_table_subject decode_envelope subject p) before
          (λ ws et env d.
            if-holds Kept.IsWellFormed (et == Tables.event_deleted)
              (DataService.remove_table m ws env.published_by d.table_uuid env.published_at new_id)
              (DataService.apply_table m (Tables.upsert_of ws env d) new_id now)
              (service_remove_table-IsWellFormed m before new_id new ws env.published_by
                d.table_uuid env.published_at)
              (service_apply_table-IsWellFormed m before new_id new (Tables.upsert_of ws env d)
                now))

    pub handle_database_table-IsWellFormed :
        (decode : Payload → Text ⊎ DatabaseTables.DatabaseTableData)
        → Kept.IsWellFormed
            (DatabaseTables.handle
              (DatabaseTables.memory_catalog new_id now)
              decode_envelope
              decode
              m
              subject
              p).1
    unfolding DatabaseTables.handle
    handle_database_table-IsWellFormed decode =
        settle-holds Kept.IsWellFormed table_verdict_on
          (DatabaseTables.call (DatabaseTables.memory_catalog new_id now)) m
          (read decode DatabaseTables.parse_database_table_subject decode_envelope subject p) before
          (λ ws et env d.
            if-holds Kept.IsWellFormed (et == DatabaseTables.event_deleted)
              (DataService.remove_postgres_table m ws d.schema d.name env.published_at new_id)
              (DataService.apply_postgres_table m (DatabaseTables.upsert_of ws env d) new_id now)
              (service_remove_postgres-IsWellFormed m before new_id new ws d.schema d.name
                env.published_at)
              (service_apply_postgres-IsWellFormed m before new_id new
                (DatabaseTables.upsert_of ws env d) now))

  -- A dashboard catalog that is well formed, with canonical locations.
  abbrev IsKept : DashboardStore.MemoryStore → Type 0
  IsKept m = Register.IsWellFormed m × HasCanonicalSources m

  module _ (m : DashboardStore.MemoryStore) (before : IsKept m) where
    service_apply-IsKept : (u : Model.Upsert) → IsKept (DashboardService.apply m u new_id now).1
    unfolding DashboardService.apply
    service_apply-IsKept u = (
      with_value-holds Register.IsWellFormed m (Model.normalize u) _ before.0 (λ (u', n).
          (apply-register m (record u' { new_id = new_id; received_at = now }) before.0).0),
      apply-HasCanonicalSources m u new_id now before.1,
    )

    service_remove-IsKept :
        (ws source_module external_id : Text) (at : Time)
        → IsKept (DashboardService.remove m ws source_module external_id at new_id).1
    unfolding DashboardService.remove
    service_remove-IsKept ws sm ext at = (
      with_value-holds Register.IsWellFormed m (DashboardService.checked_removal ws sm ext at) _
          before.0 (λ ext'. (remove-register m ws sm ext' (truncate at) new_id before.0).0),
      remove-HasCanonicalSources m ws sm ext new_id at before.1,
    )

    pub handle_dashboard-IsKept :
        (decode : Payload → Text ⊎ Dashboards.DashboardData)
        → IsKept
            (Dashboards.handle
              (Dashboards.memory_catalog new_id now)
              decode_envelope
              decode
              m
              subject
              p).1
    unfolding Dashboards.handle
    handle_dashboard-IsKept decode =
        settle-holds IsKept verdict_on (Dashboards.call (Dashboards.memory_catalog new_id now)) m
          (read decode Dashboards.parse_subject decode_envelope subject p) before
          (λ ws et env d.
            if-holds IsKept (et == Dashboards.event_deleted)
              (DashboardService.remove m ws env.published_by d.dashboard_id env.published_at new_id)
              (DashboardService.apply m (Dashboards.upsert_of ws env d) new_id now)
              (service_remove-IsKept ws env.published_by d.dashboard_id env.published_at)
              (service_apply-IsKept (Dashboards.upsert_of ws env d)))
