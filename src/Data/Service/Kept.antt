-- ===== src/Data/Service/Kept.antt =====
-- The methods of internal/data/service.go that no draft passes through, on a store that is well formed.
use booth_catalog.Prelude.{Bool}
use booth_catalog.Text.{Text}
use booth_catalog.Asset.Error.{with_value-holds}
use booth_catalog.Data.Model.{Time, TableUpsert, PostgresTableUpsert}
use booth_catalog.Data.Store.{MemoryStore}
use booth_catalog.Data.Store
use booth_catalog.Data.Store.Kept.{IsWellFormed, delete-IsWellFormed}
use booth_catalog.Data.Store.Kept.Table.{apply_table-IsWellFormed, remove_table-IsWellFormed}
use booth_catalog.Data.Store.Kept.Postgres.{
  apply_postgres_table-IsWellFormed, remove_postgres_table-IsWellFormed,
}
use booth_catalog.Data.Store.Reach.{IsNew}
use booth_catalog.Data.Service.{
  delete, deletion_error, apply_table, remove_table, apply_postgres_table, remove_postgres_table,
}

module _ (m : MemoryStore) (before : IsWellFormed m) where
  pub service_delete-IsWellFormed :
      (ws id : Text) (is_owner : Bool) → IsWellFormed (delete m ws id is_owner).1
  unfolding delete
  service_delete-IsWellFormed ws id is_owner =
      with_value-holds IsWellFormed m (Store.get m ws id) _ before (λ cur.
        with_value-holds IsWellFormed m (deletion_error cur is_owner) _ before
          (λ _. delete-IsWellFormed m ws id before))

  module _ (new_id : Text) (new : (ws : Text) → IsNew m ws new_id) where
    pub service_apply_table-IsWellFormed :
        (u : TableUpsert) (now : Time) → IsWellFormed (apply_table m u new_id now).1
    unfolding apply_table
    service_apply_table-IsWellFormed u now = with_value-holds IsWellFormed m _ _ before (λ u'.
        apply_table-IsWellFormed m (record u' { new_id = new_id; received_at = now }) before
          (new u'.workspace).1)

    pub service_remove_table-IsWellFormed :
        (ws source_module uuid : Text) (at : Time)
        → IsWellFormed (remove_table m ws source_module uuid at new_id).1
    unfolding remove_table
    service_remove_table-IsWellFormed ws sm uuid at =
        with_value-holds IsWellFormed m _ _ before
          (λ uuid'. remove_table-IsWellFormed m ws sm uuid' _ new_id before (new ws).1)

    pub service_apply_postgres-IsWellFormed :
        (u : PostgresTableUpsert) (now : Time)
        → IsWellFormed (apply_postgres_table m u new_id now).1
    unfolding apply_postgres_table
    service_apply_postgres-IsWellFormed u now = with_value-holds IsWellFormed m _ _ before (λ u'.
        apply_postgres_table-IsWellFormed m (record u' { new_id = new_id; received_at = now })
          before (new u'.workspace).0 (new u'.workspace).1)

    pub service_remove_postgres-IsWellFormed :
        (ws schema name : Text) (at : Time)
        → IsWellFormed (remove_postgres_table m ws schema name at new_id).1
    unfolding remove_postgres_table
    service_remove_postgres-IsWellFormed ws schema name at =
        with_value-holds IsWellFormed m _ _ before (λ (schema', name').
          remove_postgres_table-IsWellFormed m ws schema' name' _ new_id before (new ws).0
            (new ws).1)
