-- ===== src/Data/Service.antt =====
-- internal/data/service.go over the in-memory store. A method that writes takes the store before
-- and returns the one after; the clock and asset.NewID are arguments.
pub mod Guards
pub mod Rows
pub mod Writes
pub mod Errors
pub mod Kept
use booth_catalog.Prelude.{
  ℕ, Bool, true, false, not, ◌&&◌, ◌||◌, List, [], ◌∷◌, ◌==◌, nat_eq, list_eq, if◌then◌else◌,
  case_option, Option,
}
use booth_catalog.Text.{Text, txt, Casing}
use booth_catalog.Regexp.{matches}
use booth_catalog.Asset.Actor.{Actor}
use booth_catalog.Asset.Error.{
  Result, ok, err, managed_externally, forbidden, ◌>>=◌, ◌>>◌, refuse_if, with_value,
}
use booth_catalog.Asset.Validation.{valid_workspace, text}
use booth_catalog.Asset.Location.{Location, normalize_location}
use booth_catalog.Asset.Paging.{Page}
use booth_catalog.Asset.Hits.{Hit}
use booth_catalog.Data.Model.{
  Time, Format, is_iceberg, is_postgres, is_auto, manual, Source, Dataset, Input, TableUpsert,
  PostgresTableUpsert, ListFilter, TagCount, max_uuid, max_pg_ident, max_table_name,
}
use booth_catalog.Data.Input.{normalize_tags}
use booth_catalog.Data.Input
use booth_catalog.Data.Upsert.{normalize_table, normalize_postgres, module_re, is_zero, truncate}
use booth_catalog.Data.Store.{MemoryStore}
use booth_catalog.Data.Store
use booth_catalog.Data.Store.Events
use booth_catalog.Data.Store.Queries

-- A row that this API writes by hand: no source for a file, `manual` for a database table.
abbrev pub source_of : Format → Source
source_of f = if is_postgres f then manual else Source.unset

abbrev pub or_else : Text → Text → Text
or_else owner other = if owner == [] then other else owner

abbrev pub registered : Text → Text → Actor → Time → Input → Dataset
registered id ws actor now i = record (Events.blank id ws now) {
  name = i.name;
  description = i.description;
  location = i.location;
  schema = i.schema;
  tags = i.tags;
  owner = or_else i.owner actor.display_name;
  created_by = actor.subject;
  updated_at = now;
  format = i.format;
  postgres_table = i.postgres_table;
  source = source_of i.format;
}

abbrev pub edited : Dataset → Time → Input → Dataset
edited cur now i = record cur {
  name = i.name;
  description = i.description;
  location = i.location;
  schema = i.schema;
  tags = i.tags;
  owner = or_else i.owner cur.owner;
  format = i.format;
  postgres_table = i.postgres_table;
  source = source_of i.format;
  updated_at = now;
}

abbrev pub is_managed : Dataset → Bool
is_managed cur = is_iceberg cur.format || is_auto cur.source

-- Why a caller may not delete a row by hand.
unfoldable pub deletion_error : Dataset → Bool → Result (Unit {0})
deletion_error cur is_owner =
    if is_iceberg cur.format
    then err managed_externally
    else if is_auto cur.source
    then if not cur.missing
      then err managed_externally
      else if not is_owner
      then err forbidden
      else ok tt
    else ok tt

-- A write to the store, and the row that was written.
abbrev pub written : Dataset → Result (Unit {0}) × MemoryStore → Result Dataset × MemoryStore
written d r = (r.0 >> ok d, r.1)

-- The rest of Update, once the input and the row are at hand.
unfoldable pub save_edited : MemoryStore → Input → Time → Dataset → Result Dataset × MemoryStore
save_edited m i now cur =
    if is_managed cur
    then (err managed_externally, m)
    else written (edited cur now i) (Store.update m (edited cur now i))

unfoldable pub delete : MemoryStore → Text → Text → Bool → Result (Unit {0}) × MemoryStore
delete m ws id is_owner =
    with_value m (Store.get m ws id)
      (λ cur. with_value m (deletion_error cur is_owner) (λ _. Store.delete m ws id))

unfoldable pub remove_table :
    MemoryStore → Text → Text → Text → Time → Text → Result Bool × MemoryStore
remove_table m ws source_module uuid at new_id =
    with_value m
      (do
        refuse_if (not (valid_workspace ws)) (txt "workspace")
        refuse_if (not (matches module_re source_module)) (txt "publishedBy")
        uuid ← text (txt "tableUuid") uuid max_uuid true false
        refuse_if (is_zero at) (txt "publishedAt")
        ok uuid)
      (λ uuid. Events.remove_table m ws source_module uuid (truncate at) new_id)

unfoldable pub remove_postgres_table :
    MemoryStore → Text → Text → Text → Time → Text → Result Bool × MemoryStore
remove_postgres_table m ws schema name at new_id =
    with_value m
      (do
        refuse_if (not (valid_workspace ws)) (txt "workspace")
        schema ← text (txt "schema") schema max_pg_ident true false
        name ← text (txt "name") name max_table_name true false
        refuse_if (is_zero at) (txt "publishedAt")
        ok (schema, name))
      (λ (schema, name). Events.remove_postgres_table m ws schema name (truncate at) new_id)

unfoldable pub apply_table : MemoryStore → TableUpsert → Text → Time → Result Bool × MemoryStore
apply_table m u new_id now =
    with_value m (normalize_table u)
      (λ u. Events.apply_table m (record u { new_id = new_id; received_at = now }))

unfoldable pub apply_postgres_table :
    MemoryStore → PostgresTableUpsert → Text → Time → Result Bool × MemoryStore
apply_postgres_table m u new_id now =
    with_value m (normalize_postgres u)
      (λ u. Events.apply_postgres_table m (record u { new_id = new_id; received_at = now }))

module _ ⦃u : Casing⦄ where
  -- The validation that Create begins with.
  unfoldable pub checked_input : Text → Input → Result Input
  checked_input ws i = do refuse_if (not (valid_workspace ws)) (txt "workspace"); Input.normalize i

  unfoldable pub create :
      MemoryStore → Text → Actor → Input → Text → Time → Result Dataset × MemoryStore
  create m ws actor i new_id now = with_value m (checked_input ws i) (λ i.
      written (registered new_id ws actor now i)
        (Store.create m (registered new_id ws actor now i)))

  unfoldable pub update : MemoryStore → Text → Text → Input → Time → Result Dataset × MemoryStore
  update m ws id i now =
      with_value m (Input.normalize i) (λ i. with_value m (Store.get m ws id) (save_edited m i now))

  -- `if len(f.Tags) > 0 { … }`
  abbrev pub filter_tags : List Text → Result (List Text)
  filter_tags [] = ok []
  filter_tags (t ∷ ts) = normalize_tags (t ∷ ts)

  unfoldable pub list : MemoryStore → Text → ListFilter → Result (Page Dataset)
  list m ws f = filter_tags f.tags >>= λ tags. ok (Queries.list m ws (record f { tags = tags }))

  unfoldable pub containing_location : MemoryStore → Text → Location → Result (List Dataset)
  containing_location m ws loc =
      normalize_location (txt "location") loc >>= λ loc. ok (Queries.containing_location m ws loc)
