-- ===== src/Events/Validating.antt =====
-- The validation of an event (internal/data/model.go and internal/dashboards/model.go) fails with
-- nothing but a ValidationError.
use booth_catalog.Prelude.{ℕ, true, false, List, [], ◌∷◌, nat_eq, list_eq, suc, arith, inl, inr}
use booth_catalog.Text.{Text, txt, trim_space}
use booth_catalog.Asset.Error.{Result-cases}
use booth_catalog.Asset.Error.Validating.{
  IsValidated, text-IsValidated, normalize_location-IsValidated,
}
use booth_catalog.Data.Model.{
  Column, TableUpsert, PostgresTableUpsert, max_name, max_column_type, max_column_desc,
  max_namespace, max_table_name, max_uuid, max_pg_ident, max_kind, max_description,
}
use booth_catalog.Data.Input.{field_at, normalize_column, normalize_columns, normalize_schema}
use booth_catalog.Data.Upsert.{normalize_table, normalize_postgres}
use booth_catalog.Dashboards.Model.{normalize, normalize_path, max_external_id, max_owner}
use booth_catalog.Dashboards.Model

normalize_column-IsValidated :
    (i : ℕ) (seen : List Text) (c : Column) → IsValidated (normalize_column i seen c)
unfolding normalize_column
normalize_column-IsValidated i seen c = ground (
  arith,
  text-IsValidated (field_at i (txt ".name")) c.name max_name true false,
  text-IsValidated (field_at i (txt ".type")) c.type max_column_type true false,
  text-IsValidated (field_at i (txt ".description")) c.description max_column_desc false false,
)

normalize_columns-IsValidated :
    (i : ℕ) (seen : List Text) (cs : List Column) → IsValidated (normalize_columns i seen cs)
unfolding normalize_columns
normalize_columns-IsValidated i seen [] = tt
normalize_columns-IsValidated i seen (c ∷ cs) = elim (Result-cases (normalize_column i seen c)) [
  | inl (col, p) ↦ rw p (ground (arith, normalize_columns-IsValidated (suc i) (col.name ∷ seen) cs))
  | inr (e, p) ↦ ground (arith, normalize_column-IsValidated i seen c)
]

normalize_schema-IsValidated : (cs : List Column) → IsValidated (normalize_schema cs)
unfolding normalize_schema
normalize_schema-IsValidated cs = ground (arith, normalize_columns-IsValidated 0 [] cs)

pub normalize_table-IsValidated : (u : TableUpsert) → IsValidated (normalize_table u)
unfolding normalize_table
normalize_table-IsValidated u = ground (
  arith,
  text-IsValidated (txt "namespace") u.namespace max_namespace true false,
  text-IsValidated (txt "name") u.name max_table_name true false,
  text-IsValidated (txt "tableUuid") u.uuid max_uuid true false,
  normalize_location-IsValidated (txt "location") u.location,
  normalize_schema-IsValidated u.schema,
)

pub normalize_postgres-IsValidated : (u : PostgresTableUpsert) → IsValidated (normalize_postgres u)
unfolding normalize_postgres
normalize_postgres-IsValidated u = ground (
  arith,
  text-IsValidated (txt "schema") u.schema max_pg_ident true false,
  text-IsValidated (txt "name") u.name max_table_name true false,
  text-IsValidated (txt "kind") u.kind max_kind true false,
  text-IsValidated (txt "comment") u.comment max_description false true,
  normalize_schema-IsValidated u.columns,
)

normalize_path-IsValidated : (p : Text) → IsValidated (normalize_path p)
unfolding normalize_path
normalize_path-IsValidated p = path-IsValidated (trim_space p)
  where
    path-IsValidated : (p : Text) → IsValidated (Model.check_path p)
    path-IsValidated [] = tt
    path-IsValidated (c ∷ p) = ground arith

pub normalize-IsValidated : (u : Model.Upsert) → IsValidated (normalize u)
unfolding normalize
normalize-IsValidated u = ground (
  arith,
  text-IsValidated (txt "dashboardId") u.external_id max_external_id true false,
  text-IsValidated (txt "name") u.name Model.max_name true false,
  text-IsValidated (txt "description") u.description Model.max_description false true,
  text-IsValidated (txt "owner") u.owner max_owner false false,
  normalize_path-IsValidated u.path,
)
