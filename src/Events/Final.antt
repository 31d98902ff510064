-- ===== src/Events/Final.antt =====
-- No message is tried for ever (internal/events over the services and the in-memory stores).
use booth_catalog.Prelude.{
  Bool, true, false, ◌==◌, nat_eq, list_eq, ◌⊎◌, inl, inr, ◌≡◌, refl, ap, arith, if◌then◌else◌,
}
use booth_catalog.Text.{Text, txt}
use booth_catalog.Asset.Error.{Result}
use booth_catalog.Asset.Error.Validating.{text-IsValidated}
use booth_catalog.Data.Model.{Time, max_uuid, max_pg_ident, max_table_name}
use booth_catalog.Data.Service.{
  apply_table, remove_table, apply_postgres_table, remove_postgres_table,
}
use booth_catalog.Dashboards.Model.{max_external_id}
use booth_catalog.Dashboards.Service
use booth_catalog.Events.{
  ack, Reason, name_collision, invalid_event, Verdict, dropped, Payload, Envelope, Reading,
  accepted, refused, verdict_on, table_verdict_on, settle,
}
use booth_catalog.Events.Validating.{
  normalize-IsValidated, normalize_table-IsValidated, normalize_postgres-IsValidated,
}
use booth_catalog.Events.Settling.{
  IsStep, IsTableStep, IsAnswered, with_value-IsAnswered, apply-IsStep, remove-IsStep,
  apply_table-IsTableStep, remove_table-IsTableStep, apply_postgres-IsTableStep,
  remove_postgres-IsTableStep,
}
use booth_catalog.Events.Dashboards
use booth_catalog.Events.Dashboards.{DashboardData}
use booth_catalog.Events.Tables
use booth_catalog.Events.Tables.{TableData}
use booth_catalog.Events.DatabaseTables
use booth_catalog.Events.DatabaseTables.{DatabaseTableData}

-- Acknowledged: applied, or stale without a change.
abbrev pub IsAcknowledged : {S : Type 0} → S → Verdict × S → Type 0
IsAcknowledged s r =
    (r.0.action ≡ ack) × ((r.0.applied ≡ true) ⊎ ((r.0.applied ≡ false) × (r.1 ≡ s)))

-- So, or dropped without a change because another dataset has the table's name.
abbrev pub IsTableAcknowledged : {S : Type 0} → S → Verdict × S → Type 0
IsTableAcknowledged s r =
    IsAcknowledged s r
    ⊎ ((et : Text) × (publisher : Text) × (r ≡ (dropped (name_collision et publisher), s)))

-- A message, by the state, the drawn ID and the clock: dropped whatever these are, for one reason
-- and without a change, or never.
abbrev pub IsFinal :
    {S : Type 0} → (S → Verdict × S → Type 0) → (S → Text → Time → Verdict × S) → Type 0
IsFinal {S} ends handle =
    ((why : Reason) × ((s : S) (id : Text) (now : Time) → handle s id now ≡ (dropped why, s)))
    ⊎ ((s : S) (id : Text) (now : Time) → ends s (handle s id now))

module _ {D S : Type 0}
    (call : Text → Time → S → Text → Text → Envelope → D → Result Bool × S) where
  settle-IsFinal :
      (r : Reading D)
      → ((ws et : Text) (env : Envelope) (d : D)
          → IsAnswered IsStep (λ s id now. call id now s ws et env d))
      → IsFinal IsAcknowledged (λ s id now. settle verdict_on (call id now) s r)
  settle-IsFinal (refused why) h = inl (why, λ s id now. refl)
  settle-IsFinal (accepted ws et env d) h = elim (h ws et env d) [
    | inl (field, p) ↦ inl (
      invalid_event et env.published_by field,
      λ s id now. ap (λ x. (verdict_on et env.published_by x.0, x.1)) (p s id now),
    )
    | inr p ↦ inr (λ s id now. elim (p s id now) [ inl q ↦ ground arith | inr q ↦ ground arith ])
  ]

  settle-table-IsFinal :
      (r : Reading D)
      → ((ws et : Text) (env : Envelope) (d : D)
          → IsAnswered IsTableStep (λ s id now. call id now s ws et env d))
      → IsFinal IsTableAcknowledged (λ s id now. settle table_verdict_on (call id now) s r)
  settle-table-IsFinal (refused why) h = inl (why, λ s id now. refl)
  settle-table-IsFinal (accepted ws et env d) h = elim (h ws et env d) [
    | inl (field, p) ↦ inl (
      invalid_event et env.published_by field,
      λ s id now. ap (λ x. (table_verdict_on et env.published_by x.0, x.1)) (p s id now),
    )
    | inr p ↦ inr (λ s id now. elim (p s id now) [
      | inl (inl q) ↦ inl (ground arith)
      | inl (inr q) ↦ inl (ground arith)
      | inr q ↦
          inr (et, env.published_by, ap (λ x. (table_verdict_on et env.published_by x.0, x.1)) q)
    ])
  ]

module _ (ws et : Text) (env : Envelope) where
  if-IsAnswered :
      {S : Type 0} (step : S → Result Bool × S → Type 0) (b : Bool)
      (f g : S → Text → Time → Result Bool × S)
      → IsAnswered step f
      → IsAnswered step g
      → IsAnswered step (λ s id now. if b then f s id now else g s id now)
  if-IsAnswered step true f g h k = h
  if-IsAnswered step false f g h k = k

  dashboards-IsAnswered :
      (d : DashboardData)
      → IsAnswered IsStep
          (λ s id now. Dashboards.call (Dashboards.memory_catalog id now) s ws et env d)
  unfolding Service.apply Service.remove
  dashboards-IsAnswered d =
      if-IsAnswered IsStep (et == Dashboards.event_deleted) _ _
        (with_value-IsAnswered IsStep _ _
          (ground
            (arith, text-IsValidated (txt "dashboardId") d.dashboard_id max_external_id true false))
          (λ s id now a. remove-IsStep s ws _ a _ id))
        (with_value-IsAnswered IsStep _ _ (normalize-IsValidated (Dashboards.upsert_of ws env d))
          (λ s id now a. apply-IsStep s _))

  tables-IsAnswered :
      (d : TableData)
      → IsAnswered IsTableStep
          (λ s id now. Tables.call (Tables.memory_catalog id now) s ws et env d)
  unfolding apply_table remove_table
  tables-IsAnswered d =
      if-IsAnswered IsTableStep (et == Tables.event_deleted) _ _
        (with_value-IsAnswered IsTableStep _ _
          (ground (arith, text-IsValidated (txt "tableUuid") d.table_uuid max_uuid true false))
          (λ s id now a. remove_table-IsTableStep s ws _ a _ id))
        (with_value-IsAnswered IsTableStep _ _
          (normalize_table-IsValidated (Tables.upsert_of ws env d))
          (λ s id now a. apply_table-IsTableStep s _))

  database_tables-IsAnswered :
      (d : DatabaseTableData)
      → IsAnswered IsTableStep
          (λ s id now. DatabaseTables.call (DatabaseTables.memory_catalog id now) s ws et env d)
  unfolding apply_postgres_table remove_postgres_table
  database_tables-IsAnswered d =
      if-IsAnswered IsTableStep (et == DatabaseTables.event_deleted) _ _
        (with_value-IsAnswered IsTableStep _ _
          (ground (
            arith,
            text-IsValidated (txt "schema") d.schema max_pg_ident true false,
            text-IsValidated (txt "name") d.name max_table_name true false,
          ))
          (λ s id now (a, b). remove_postgres-IsTableStep s ws a b _ id))
        (with_value-IsAnswered IsTableStep _ _
          (normalize_postgres-IsValidated (DatabaseTables.upsert_of ws env d))
          (λ s id now a. apply_postgres-IsTableStep s _))

-- Over the in-memory catalogs no message is retried. Each is either dropped for one reason, and without
-- a change, whatever the store, the drawn ID and the clock are; or always acknowledged, as applied or as
-- stale without a change, but for a table whose name another dataset has, which is dropped without a
-- change while it has.
pub handle-IsFinal :
    (envelope : Payload → Text ⊎ Envelope) (dashboard : Payload → Text ⊎ DashboardData)
    (table : Payload → Text ⊎ TableData) (database_table : Payload → Text ⊎ DatabaseTableData)
    (subject : Text) (payload : Payload)
    → IsFinal IsAcknowledged (λ s id now.
      Dashboards.handle (Dashboards.memory_catalog id now) envelope dashboard s subject payload)
      × IsFinal IsTableAcknowledged (λ s id now.
        Tables.handle (Tables.memory_catalog id now) envelope table s subject payload)
      × IsFinal IsTableAcknowledged (λ s id now.
        DatabaseTables.handle
          (DatabaseTables.memory_catalog id now)
          envelope
          database_table
          s
          subject
          payload)
unfolding Dashboards.handle Tables.handle DatabaseTables.handle
handle-IsFinal envelope dashboard table database_table subject payload = (
  settle-IsFinal (λ id now. Dashboards.call (Dashboards.memory_catalog id now)) _
      dashboards-IsAnswered,
  settle-table-IsFinal (λ id now. Tables.call (Tables.memory_catalog id now)) _ tables-IsAnswered,
  settle-table-IsFinal (λ id now. DatabaseTables.call (DatabaseTables.memory_catalog id now)) _
      database_tables-IsAnswered,
)
