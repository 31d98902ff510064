-- ===== src/Data/Input.antt =====
-- Validation of what callers register (internal/data/model.go): the `Normalize` of Input and the
-- helpers that it shares with the events.
pub mod Laws
pub mod Placed
use booth_catalog.Prelude.{
  ℕ, Bool, true, false, not, ◌&&◌, ◌||◌, List, [], ◌∷◌, ◌++◌, ltb, ◌+◌, suc, ◌==◌, nat_eq, list_eq,
  if◌then◌else◌, case_option, Option, none, some, any, length, sort_stable,
}
use booth_catalog.Text.{Text, txt, trim_space, byte_len, text_lt, itoa, Casing, to_lower}
use booth_catalog.Regexp.{Regex, class, seq, star, matches, lowercase, uppercase, digit, one_of}
use booth_catalog.Asset.Error.{Result, ok, err, invalid, ◌>>=◌, ◌>>◌, refuse_if}
use booth_catalog.Asset.Validation.{text}
use booth_catalog.Asset.Location.{Location, no_location, location_eq, normalize_location}
use booth_catalog.Data.Model.{
  max_name, max_description, max_owner, max_columns, max_column_type, max_column_desc, max_tags,
  max_tag_len, max_pg_ident, Format, file, postgres, PostgresTableRef, Column, Input,
}

abbrev pub tag_start : ℕ → Bool
tag_start c = lowercase c || digit c

abbrev pub tag_char : ℕ → Bool
tag_char c = lowercase c || digit c || one_of (txt "._:-") c

-- ^[a-z0-9][a-z0-9._:-]*$
abbrev pub tag_re : Regex
tag_re = seq (class tag_start) (star (class tag_char))

abbrev pub ident_start : ℕ → Bool
ident_start c = uppercase c || lowercase c || c == b'_'

abbrev pub ident_char : ℕ → Bool
ident_char c = uppercase c || lowercase c || digit c || c == b'_'

-- ^[A-Za-z_][A-Za-z0-9_]*$
abbrev pub pg_ident_re : Regex
pg_ident_re = seq (class ident_start) (star (class ident_char))

unfoldable pub normalize_postgres_table : PostgresTableRef → Result PostgresTableRef
normalize_postgres_table r = do
  schema ← text (txt "postgresTable.schema") r.schema max_pg_ident true false
  refuse_if (not (matches pg_ident_re schema)) (txt "postgresTable.schema")
  name ← text (txt "postgresTable.name") r.name max_pg_ident true false
  refuse_if (not (matches pg_ident_re name)) (txt "postgresTable.name")
  ok (record { schema = schema; name = name })

abbrev pub field_at : ℕ → Text → Text
field_at i part = txt "schema[" ++ itoa i ++ txt "]" ++ part

-- The body of the loop over the columns: at an index, with the names seen so far.
unfoldable pub normalize_column : ℕ → List Text → Column → Result Column
normalize_column i seen c = do
  name ← text (field_at i (txt ".name")) c.name max_name true false
  type ← text (field_at i (txt ".type")) c.type max_column_type true false
  description ← text (field_at i (txt ".description")) c.description max_column_desc false false
  refuse_if (any (λ n. n == name) seen) (field_at i (txt ".name"))
  ok (record { name = name; type = type; description = description; nullable = c.nullable })

unfoldable pub normalize_columns : ℕ → List Text → List Column → Result (List Column)
normalize_columns i seen [] = ok []
normalize_columns i seen (c ∷ cs) = do
  col ← normalize_column i seen c
  rest ← normalize_columns (suc i) (col.name ∷ seen) cs
  ok (col ∷ rest)

unfoldable pub normalize_schema : List Column → Result (List Column)
normalize_schema cs = do
  refuse_if (ltb max_columns (length cs)) (txt "schema")
  normalize_columns 0 [] cs

module _ ⦃u : Casing⦄ where
  abbrev pub canonical_tag : Text → Text
  canonical_tag raw = to_lower (trim_space raw)

  abbrev pub bad_tag : Text → Bool
  bad_tag t = t == [] || ltb max_tag_len (byte_len t) || not (matches tag_re t)

  -- The loop over the tags, with those kept so far.
  unfoldable pub collect_tags : List Text → List Text → Result (List Text)
  collect_tags seen [] = ok []
  collect_tags seen (raw ∷ raws) = do
    let t = canonical_tag raw
    refuse_if (bad_tag t) (txt "tags")
    rest ← collect_tags (t ∷ seen) raws
    ok (if any (λ s. s == t) seen then rest else t ∷ rest)

  unfoldable pub normalize_tags : List Text → Result (List Text)
  normalize_tags raws = do
    refuse_if (ltb max_tags (length raws)) (txt "tags")
    tags ← collect_tags [] raws
    ok (sort_stable text_lt tags)

  abbrev pub format_of : Format → Result Format
  format_of Format.unset = ok file
  format_of Format.file = ok file
  format_of Format.postgres = ok postgres
  format_of _ = err (invalid (txt "format"))

  -- Where the data lies: a location for a file, a table for a database.
  abbrev pub place_of : Format → Input → Result (Location × Option PostgresTableRef)
  place_of Format.postgres i = do
    refuse_if (not (i.location == no_location)) (txt "location")
    case_option i.postgres_table (err (invalid (txt "postgresTable")))
        (λ t. normalize_postgres_table t >>= λ t'. ok (no_location, some t'))
  place_of _ i =
      case_option i.postgres_table
        (normalize_location (txt "location") i.location >>= λ l. ok (l, none))
        (λ t. err (invalid (txt "postgresTable")))

  unfoldable pub normalize : Input → Result Input
  normalize i = do
    format ← format_of i.format
    name ← text (txt "name") i.name max_name true false
    description ← text (txt "description") i.description max_description false true
    owner ← text (txt "owner") i.owner max_owner false false
    place ← place_of format i
    schema ← normalize_schema i.schema
    tags ← normalize_tags i.tags
    ok (record {
      name = name;
      description = description;
      location = place.0;
      schema = schema;
      tags = tags;
      owner = owner;
      format = format;
      postgres_table = place.1;
    })
