-- ===== src/Data/Store/Reach.antt =====
-- The stores that a run of the program goes through (internal/data/memory.go). Every method holds
-- the lock, so that a run is a sequence of whole calls. The IDs that asset.NewID draws are new.
use booth_catalog.Prelude.{false, [], none, ◌≡◌, ◌≢◌, nat_eq, list_eq, refl, arith}
use booth_catalog.Prelude.GoMap
use booth_catalog.Text.{Text}
use booth_catalog.Data.Model.{Time, Dataset, TableUpsert, PostgresTableUpsert, is_iceberg}
use booth_catalog.Data.Store.{MemoryStore, new_store, create, update, delete}
use booth_catalog.Data.Store.Events.{
  apply_table, remove_table, apply_postgres_table, remove_postgres_table,
}
use booth_catalog.Data.Store.Kept.{
  IsWellFormed, create-IsWellFormed, update-IsWellFormed, delete-IsWellFormed,
}
use booth_catalog.Data.Store.Kept.Table.{apply_table-IsWellFormed, remove_table-IsWellFormed}
use booth_catalog.Data.Store.Kept.Postgres.{
  apply_postgres_table-IsWellFormed, remove_postgres_table-IsWellFormed,
}

abbrev pub IsNew : MemoryStore → Text → Text → Type 0
IsNew m ws id = (GoMap.get id (m.by_ws ws) ≡ none) × (id ≢ [])

-- One call of a method that writes. The write API registers no table of another module.
pub data Step : MemoryStore → MemoryStore → Type 0 where
  creates :
      {m : MemoryStore} (d : Dataset)
      → IsNew m d.workspace d.id
      → is_iceberg d.format ≡ false
      → Step m (create m d).1
  updates : {m : MemoryStore} (d : Dataset) → is_iceberg d.format ≡ false → Step m (update m d).1
  deletes : {m : MemoryStore} (ws id : Text) → Step m (delete m ws id).1
  applies_table :
      {m : MemoryStore} (u : TableUpsert)
      → IsNew m u.workspace u.new_id
      → Step m (apply_table m u).1
  removes_table :
      {m : MemoryStore} (ws source_module uuid : Text) (at : Time) (new_id : Text)
      → IsNew m ws new_id
      → Step m (remove_table m ws source_module uuid at new_id).1
  applies_postgres :
      {m : MemoryStore} (u : PostgresTableUpsert)
      → IsNew m u.workspace u.new_id
      → Step m (apply_postgres_table m u).1
  removes_postgres :
      {m : MemoryStore} (ws schema name : Text) (at : Time) (new_id : Text)
      → IsNew m ws new_id
      → Step m (remove_postgres_table m ws schema name at new_id).1

pub data Reachable : MemoryStore → Type 0 where
  start : Reachable new_store
  step : {m m' : MemoryStore} → Reachable m → Step m m' → Reachable m'

pub new_store-IsWellFormed : IsWellFormed new_store
unfolding GoMap.get
new_store-IsWellFormed ws = record {
  distinct = tt;
  keyed = λ id d h. ground arith;
  named = λ i j d d' h k n. ground arith;
  buried = λ id h. absurd (ground arith);
  identified = λ i j d d' sm uuid h k t t'. ground arith;
  no_empty_id = refl;
}

Step-IsWellFormed : (m m' : MemoryStore) → IsWellFormed m → Step m m' → IsWellFormed m'
Step-IsWellFormed m _ before (creates d new fmt) = create-IsWellFormed m d before new.0 new.1 fmt
Step-IsWellFormed m _ before (updates d fmt) = update-IsWellFormed m d before fmt
Step-IsWellFormed m _ before (deletes ws id) = delete-IsWellFormed m ws id before
Step-IsWellFormed m _ before (applies_table u new) = apply_table-IsWellFormed m u before new.1
Step-IsWellFormed m _ before (removes_table ws sm uuid at new_id new) =
    remove_table-IsWellFormed m ws sm uuid at new_id before new.1
Step-IsWellFormed m _ before (applies_postgres u new) =
    apply_postgres_table-IsWellFormed m u before new.0 new.1
Step-IsWellFormed m _ before (removes_postgres ws schema name at new_id new) =
    remove_postgres_table-IsWellFormed m ws schema name at new_id before new.0 new.1

-- In every store that calls of Create, Update, Delete, ApplyTable, RemoveTable,
-- ApplyPostgresTable and RemovePostgresTable lead to from an empty one, given that the IDs drawn
-- are new and that Create and Update write no iceberg row, the rows of every workspace are
-- consistent: each stands once, under its own ID and in its own workspace; no two visible rows have
-- one name; a tombstone has a row, an iceberg one; a table (module, UUID) has at most one row,
-- tombstones included; and no row has the empty ID.
pub Reachable-IsWellFormed : (m : MemoryStore) → Reachable m → IsWellFormed m
Reachable-IsWellFormed _ start = new_store-IsWellFormed
Reachable-IsWellFormed m' (step {m} r s) = Step-IsWellFormed m m' (Reachable-IsWellFormed m r) s
