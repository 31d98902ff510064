-- ===== src/Data/Store/Events.antt =====
-- internal/data/memory.go: what the store does with the events of other modules. A stale event,
-- older than what has been applied to its row, changes nothing and answers `false`.
use booth_catalog.Prelude.{
  Bool, true, false, [], ◌++◌, ◌∷◌, ltb, if◌then◌else◌, case_option, Option, none, some, nat_eq,
  list_eq,
}
use booth_catalog.Text.{Text}
use booth_catalog.Asset.Error.{Result, ok, err, exists}
use booth_catalog.Asset.Location.{no_location}
use booth_catalog.Data.Model.{
  Time, zero_time, iceberg, postgres, auto, is_manual, Source, Format, Dataset, TableUpsert,
  PostgresTableUpsert,
}
use booth_catalog.Data.Store.{
  MemoryStore, name_taken, find_table, find_postgres_table, is_dead, write, bury, revive,
}

-- A Go Dataset{} with no field set but these.
abbrev pub blank : Text → Text → Time → Dataset
blank id ws created = record {
  id = id;
  workspace = ws;
  name = [];
  description = [];
  location = no_location;
  schema = [];
  tags = [];
  owner = [];
  created_by = [];
  created_at = created;
  updated_at = zero_time;
  format = Format.unset;
  table = none;
  source_module = [];
  postgres_table = none;
  source = Source.unset;
  kind = [];
  approx_rows = none;
  missing = false;
}

-- cur != nil && cur.UpdatedAt.After(at)
abbrev pub is_stale : Option Dataset → Time → Bool
is_stale none at = false
is_stale (some cur) at = ltb at cur.updated_at

abbrev pub dataset_name : TableUpsert → Text
dataset_name u = u.namespace ++ b'.' ∷ u.name

abbrev pub postgres_dataset_name : Text → Text → Text
postgres_dataset_name schema name = schema ++ b'.' ∷ name

abbrev pub id_or : Option Dataset → Text → Text
id_or none other = other
id_or (some cur) other = cur.id

-- The row that a table event leaves: nothing of an earlier row stays but its identity.
abbrev pub table_row : TableUpsert → Text → Time → Dataset
table_row u id created = record (blank id u.workspace created) {
  format = iceberg;
  source_module = u.source_module;
  name = dataset_name u;
  location = u.location;
  schema = u.schema;
  table = some (record {
    namespace = u.namespace;
    name = u.name;
    uuid = u.uuid;
    current_snapshot_id = u.current_snapshot_id;
  });
  updated_at = u.at;
}

abbrev pub created_or : Option Dataset → Time → Time
created_or none other = other
created_or (some cur) other = cur.created_at

unfoldable pub apply_table : MemoryStore → TableUpsert → Result Bool × MemoryStore
apply_table m u =
    let ws = u.workspace in
    let cur = find_table m ws u.source_module u.uuid in
    if is_stale cur u.at
    then (ok false, m)
    else if name_taken m ws (dataset_name u) (id_or cur [])
    then (err exists, m)
    else let id = id_or cur u.new_id in
      if is_dead m ws id
      then (ok true, write ws (table_row u id u.received_at) (revive ws id m))
      else (ok true, write ws (table_row u id (created_or cur u.received_at)) m)

-- The row of a table of which only the removal is known.
abbrev pub removed_blank : Text → Text → Text → Time → Text → Dataset
removed_blank ws source_module uuid at new_id = record (blank new_id ws at) {
  format = iceberg;
  source_module = source_module;
  table = some (record { namespace = []; name = []; uuid = uuid; current_snapshot_id = none });
  updated_at = at;
}

unfoldable pub remove_table :
    MemoryStore → Text → Text → Text → Time → Text → Result Bool × MemoryStore
remove_table m ws source_module uuid at new_id =
    case_option (find_table m ws source_module uuid)
      (let d = removed_blank ws source_module uuid at new_id in
        (ok true, bury ws new_id (write ws d m)))
      (λ cur.
        if ltb at cur.updated_at
        then (ok false, m)
        else (ok true, bury ws cur.id (write ws (record cur { updated_at = at }) m)))

-- What every applied event refreshes.
abbrev pub refreshed : PostgresTableUpsert → Dataset → Dataset
refreshed u d = record d {
  schema = u.columns;
  kind = u.kind;
  approx_rows = u.approx_rows;
  missing = false;
  updated_at = u.at;
}

-- The description follows the comment where nobody has typed one.
abbrev pub merged : PostgresTableUpsert → Dataset → Dataset
merged u cur = if is_manual cur.source then cur else record cur { description = u.comment }

-- An auto-discovered row that no event has filled in yet.
abbrev pub discovered : Text → Text → Text → Text → Time → Dataset
discovered id ws schema name created = record (blank id ws created) {
  name = postgres_dataset_name schema name;
  format = postgres;
  source = auto;
  postgres_table = some (record { schema = schema; name = name });
}

unfoldable pub apply_postgres_table : MemoryStore → PostgresTableUpsert → Result Bool × MemoryStore
apply_postgres_table m u =
    case_option (find_postgres_table m u.workspace u.schema u.name)
      (if name_taken m u.workspace (postgres_dataset_name u.schema u.name) []
        then (err exists, m)
        else let d = discovered u.new_id u.workspace u.schema u.name u.received_at in
          (ok true, write u.workspace (refreshed u (record d { description = u.comment })) m))
      (λ cur.
        if ltb u.at cur.updated_at
        then (ok false, m)
        else (ok true, write u.workspace (refreshed u (merged u cur)) m))

unfoldable pub remove_postgres_table :
    MemoryStore → Text → Text → Text → Time → Text → Result Bool × MemoryStore
remove_postgres_table m ws schema name at new_id =
    case_option (find_postgres_table m ws schema name)
      (if name_taken m ws (postgres_dataset_name schema name) []
        then (err exists, m)
        else let d = discovered new_id ws schema name at in
          (ok true, write ws (record d { missing = true; updated_at = at }) m))
      (λ cur.
        if ltb at cur.updated_at
        then (ok false, m)
        else (ok true, write ws (record cur { missing = true; updated_at = at }) m))
