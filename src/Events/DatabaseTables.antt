-- ===== src/Events/DatabaseTables.antt =====
-- internal/events/database_tables.go: the events of the tables of a database, applied to the dataset
-- catalog.
use booth_catalog.Prelude.{
  Bool, ◌&&◌, List, [], ◌∷◌, ◌++◌, ◌==◌, map, nat_eq, list_eq, if◌then◌else◌, case_option, Option,
  none, ◌⊎◌, ℤ,
}
use booth_catalog.Text.{Text, txt, split}
use booth_catalog.Asset.Error.{Result}
use booth_catalog.Data.Model.{Time, zero_time, Column, PostgresTableUpsert}
use booth_catalog.Data.Store.{MemoryStore}
use booth_catalog.Data.Service
use booth_catalog.Events.{
  Verdict, Payload, Envelope, lifecycle_event, read, table_verdict_on, settle,
}

abbrev pub event_created : Text
event_created = txt "database.table.created"

abbrev pub event_updated : Text
event_updated = txt "database.table.updated"

abbrev pub event_deleted : Text
event_deleted = txt "database.table.deleted"

pub record DatabaseTableCatalog (S : Type 0) : Type 0 where
  pub apply_postgres_table : S → PostgresTableUpsert → Result Bool × S
  pub remove_postgres_table : S → Text → Text → Text → Time → Result Bool × S

pub record DatabaseTableCol : Type 0 where
  pub name : Text
  pub type : Text
  pub nullable : Bool
  pub comment : Text

pub record DatabaseTableData : Type 0 where
  pub schema : Text
  pub name : Text
  pub kind : Text
  pub comment : Option Text
  pub columns : List DatabaseTableCol
  pub approx_rows : Option ℤ

-- The dataset service, with the clock and the next asset.NewID.
abbrev pub memory_catalog : Text → Time → DatabaseTableCatalog MemoryStore
memory_catalog new_id now = record {
  apply_postgres_table = λ m u. Service.apply_postgres_table m u new_id now;
  remove_postgres_table =
      λ m ws schema name at. Service.remove_postgres_table m ws schema name at new_id;
}

-- DatabaseTableData.comment
abbrev pub comment : DatabaseTableData → Text
comment d = case_option d.comment [] (λ c. c)

abbrev pub column_of : DatabaseTableCol → Column
column_of c = record {
  name = c.name;
  type = c.type;
  description = c.comment;
  nullable = c.nullable;
}

abbrev pub to_columns : List DatabaseTableCol → List Column
to_columns = map column_of

abbrev pub subject_parts : List Text → Option (Text × Text)
subject_parts (booth ∷ ws ∷ family ∷ kind ∷ verb ∷ []) =
    if booth == txt "booth" && family == txt "database" && kind == txt "table"
    then lifecycle_event event_created event_updated event_deleted ws
        (txt "database.table." ++ verb)
    else none
subject_parts _ = none

unfoldable pub parse_database_table_subject : Text → Option (Text × Text)
parse_database_table_subject subject = subject_parts (split b'.' subject)

abbrev pub upsert_of : Text → Envelope → DatabaseTableData → PostgresTableUpsert
upsert_of ws env d = record {
  workspace = ws;
  source_module = env.published_by;
  schema = d.schema;
  name = d.name;
  kind = d.kind;
  comment = comment d;
  columns = to_columns d.columns;
  approx_rows = d.approx_rows;
  at = env.published_at;
  new_id = [];
  received_at = zero_time;
}

module _ {S : Type 0} (catalog : DatabaseTableCatalog S) where
  abbrev pub call : S → Text → Text → Envelope → DatabaseTableData → Result Bool × S
  call s ws et env d =
      if et == event_deleted
      then catalog.remove_postgres_table s ws d.schema d.name env.published_at
      else catalog.apply_postgres_table s (upsert_of ws env d)

  -- DatabaseTableProcessor.Handle
  unfoldable pub handle :
      (Payload → Text ⊎ Envelope)
      → (Payload → Text ⊎ DatabaseTableData)
      → S
      → Text
      → Payload
      → Verdict × S
  handle decode_envelope decode_data s subject payload =
      settle table_verdict_on call s
        (read decode_data parse_database_table_subject decode_envelope subject payload)
