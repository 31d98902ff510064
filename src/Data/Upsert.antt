-- ===== src/Data/Upsert.antt =====
-- Validation of the events of other modules (internal/data/model.go): the `Normalize` of
-- TableUpsert and of PostgresTableUpsert.
use booth_catalog.Prelude.{
  Bool, true, false, not, Option, none, some, ℤ, pos, negsuc, ◌*◌, ◌/◌, ◌==◌, nat_eq,
}
use booth_catalog.Text.{txt}
use booth_catalog.Regexp.{Regex, class, seq, up_to, matches, lowercase}
use booth_catalog.Asset.Error.{Result, ok, ◌>>=◌, ◌>>◌, refuse_if}
use booth_catalog.Asset.Validation.{text, valid_workspace, slug_char}
use booth_catalog.Asset.Location.{normalize_location}
use booth_catalog.Data.Model.{
  Time, zero_time, max_namespace, max_table_name, max_uuid, max_pg_ident, max_kind, max_description,
  TableUpsert, PostgresTableUpsert,
}
use booth_catalog.Data.Input.{normalize_schema}

-- ^[a-z][a-z0-9-]{0,62}$
unfoldable pub module_re : Regex
module_re = seq (class lowercase) (up_to 62 (class slug_char))

abbrev pub is_zero : Time → Bool
is_zero t = t == zero_time

-- t.Truncate(time.Microsecond)
abbrev pub truncate : Time → Time
truncate t = t / 1000 * 1000

abbrev pub is_negative : Option ℤ → Bool
is_negative none = false
is_negative (some (pos n)) = false
is_negative (some (negsuc n)) = true

unfoldable pub normalize_table : TableUpsert → Result TableUpsert
unfolding module_re
normalize_table u = do
  refuse_if (not (valid_workspace u.workspace)) (txt "workspace")
  refuse_if (not (matches module_re u.source_module)) (txt "publishedBy")
  namespace ← text (txt "namespace") u.namespace max_namespace true false
  name ← text (txt "name") u.name max_table_name true false
  uuid ← text (txt "tableUuid") u.uuid max_uuid true false
  location ← normalize_location (txt "location") u.location
  schema ← normalize_schema u.schema
  refuse_if (is_zero u.at) (txt "publishedAt")
  ok (record u {
    namespace = namespace;
    name = name;
    uuid = uuid;
    location = location;
    schema = schema;
    at = truncate u.at;
  })

unfoldable pub normalize_postgres : PostgresTableUpsert → Result PostgresTableUpsert
unfolding module_re
normalize_postgres u = do
  refuse_if (not (valid_workspace u.workspace)) (txt "workspace")
  refuse_if (not (matches module_re u.source_module)) (txt "publishedBy")
  schema ← text (txt "schema") u.schema max_pg_ident true false
  name ← text (txt "name") u.name max_table_name true false
  kind ← text (txt "kind") u.kind max_kind true false
  comment ← text (txt "comment") u.comment max_description false true
  columns ← normalize_schema u.columns
  refuse_if (is_negative u.approx_rows) (txt "approxRows")
  refuse_if (is_zero u.at) (txt "publishedAt")
  ok (record u {
    schema = schema;
    name = name;
    kind = kind;
    comment = comment;
    columns = columns;
    at = truncate u.at;
  })
