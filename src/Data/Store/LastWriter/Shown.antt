-- ===== src/Data/Store/LastWriter/Shown.antt =====
-- The row of a table of another module, field by field (internal/data/memory.go: ApplyTable).
use booth_catalog.Prelude.{false, [], ◌∷◌, ◌++◌, none, some, ◌≡◌, refl}
use booth_catalog.Text.{Text}
use booth_catalog.Data.Model.{Time, iceberg, Source, TableRef, Dataset, TableUpsert}
use booth_catalog.Data.Store.Events.{table_row}

-- The row holds the event, and nothing else but its ID and its creation time.
pub record HoldsEvent (u : TableUpsert) (d : Dataset) : Type 0 where
  pub workspace : d.workspace ≡ u.workspace
  pub source_module : d.source_module ≡ u.source_module
  pub format : d.format ≡ iceberg
  pub name : d.name ≡ u.namespace ++ b'.' ∷ u.name
  pub location : d.location ≡ u.location
  pub schema : d.schema ≡ u.schema
  pub updated_at : d.updated_at ≡ u.at
  pub table :
      (t : TableRef) × (d.table ≡ some t)
      × (t.namespace ≡ u.namespace)
      × (t.name ≡ u.name)
      × (t.uuid ≡ u.uuid)
      × (t.current_snapshot_id ≡ u.current_snapshot_id)
  pub description : d.description ≡ []
  pub tags : d.tags ≡ []
  pub owner : d.owner ≡ []
  pub created_by : d.created_by ≡ []
  pub postgres_table : d.postgres_table ≡ none
  pub source : d.source ≡ Source.unset
  pub kind : d.kind ≡ []
  pub approx_rows : d.approx_rows ≡ none
  pub missing : d.missing ≡ false

pub table_row-HoldsEvent :
    (u : TableUpsert) (id : Text) (created : Time) → HoldsEvent u (table_row u id created)
table_row-HoldsEvent u id created = record {
  workspace = refl;
  source_module = refl;
  format = refl;
  name = refl;
  location = refl;
  schema = refl;
  updated_at = refl;
  table = (_, refl, refl, refl, refl, refl);
  description = refl;
  tags = refl;
  owner = refl;
  created_by = refl;
  postgres_table = refl;
  source = refl;
  kind = refl;
  approx_rows = refl;
  missing = refl;
}
