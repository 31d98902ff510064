-- ===== src/Data/Input/Laws.antt =====
-- What a normalized input is (internal/data/model.go).
use booth_catalog.Prelude.{
  ℕ, Bool, true, false, List, [], ◌∷◌, suc, ◌==◌, nat_eq, list_eq, any, map, length, ◌≡◌, ◌≤◌,
  subst, refl, arith,
}
use booth_catalog.Text.{Text, txt, Casing}
use booth_catalog.Asset.Error.{ok, bind-eq-ok, ok-injective}
use booth_catalog.Asset.Validation.{text}
use booth_catalog.Asset.Location.{location_eq}
use booth_catalog.Data.Model.{
  max_name, max_description, max_owner, max_column_type, max_column_desc, max_columns, Column,
  Input,
}
use booth_catalog.Data.Input.Placed.{IsPlaced, place_of-IsPlaced}
use booth_catalog.Data.Input.{
  normalize_tags, normalize_column, normalize_columns, normalize_schema, field_at, normalize,
  place_of, format_of,
}

-- No name of the list stands in `seen` or twice in the list.
abbrev pub IsUnique : List Text → List Text → Type 0
IsUnique seen [] = Unit
IsUnique seen (n ∷ ns) = (any (λ s. s == n) seen ≡ false) × IsUnique (n ∷ seen) ns

abbrev pub names : List Column → List Text
names cs = map (λ c. c.name) cs

normalize_column-fresh :
    (i : ℕ) (seen : List Text) (c col : Column)
    → normalize_column i seen c ≡ ok col
    → any (λ n. n == col.name) seen ≡ false
unfolding normalize_column
normalize_column-fresh i seen c col h =
    let (name, _, h1) =
      bind-eq-ok (text (field_at i (txt ".name")) c.name max_name true false) _ h in
    let (type, _, h2) =
      bind-eq-ok (text (field_at i (txt ".type")) c.type max_column_type true false) _ h1 in
    let (desc, _, h3) =
      bind-eq-ok (text (field_at i (txt ".description")) c.description max_column_desc false false)
        _ h2 in
    ground arith

normalize_columns-IsUnique :
    (i : ℕ) (seen : List Text) (cs out : List Column)
    → normalize_columns i seen cs ≡ ok out
    → IsUnique seen (names out)
unfolding normalize_columns
normalize_columns-IsUnique i seen [] [] h = tt
normalize_columns-IsUnique i seen [] (_ ∷ _) h = absurd (ground arith)
normalize_columns-IsUnique i seen (c ∷ cs) out h =
    let (col, p, h1) = bind-eq-ok (normalize_column i seen c) _ h in
    let (rest, q, h2) = bind-eq-ok (normalize_columns (suc i) (col.name ∷ seen) cs) _ h1 in
    let e : col ∷ rest ≡ out = ground arith in
    subst (λ x. IsUnique seen (names x)) e
      (
        normalize_column-fresh i seen c col p,
        normalize_columns-IsUnique (suc i) (col.name ∷ seen) cs rest q,
      )

-- An accepted schema names no column twice, and has at most 1000 of them, as many as were given.
pub normalize_schema-IsUnique :
    (cs out : List Column)
    → normalize_schema cs ≡ ok out
    → IsUnique [] (names out) × (length cs ≤ max_columns)
unfolding normalize_schema
normalize_schema-IsUnique cs out h =
    (normalize_columns-IsUnique 0 [] cs out (ground arith), ground arith)

abbrev pub is_in : Text → List Text → Bool
is_in t ts = any (λ s. s == t) ts

module _ ⦃u : Casing⦄ where
  -- What is accepted as a file has no table, and a location that is stored in canonical form; what is
  -- accepted as a database table has no location, and a table whose two names are stored trimmed, as
  -- identifiers of at most 63 characters. Anything else is refused: a table of a file, a location of a database
  -- table, and any other format.
  pub normalize-IsPlaced : (i out : Input) → normalize i ≡ ok out → IsPlaced i out
  unfolding normalize
  normalize-IsPlaced i out h =
      let (format, p, h1) = bind-eq-ok (format_of i.format) _ h in
      let (name, _, h2) = bind-eq-ok (text (txt "name") i.name max_name true false) _ h1 in
      let (desc, _, h3) =
        bind-eq-ok (text (txt "description") i.description max_description false true) _ h2 in
      let (owner, _, h4) = bind-eq-ok (text (txt "owner") i.owner max_owner false false) _ h3 in
      let (place, q, h5) = bind-eq-ok (place_of format i) _ h4 in
      let (schema, _, h6) = bind-eq-ok (normalize_schema i.schema) _ h5 in
      let (tags, _, h7) = bind-eq-ok (normalize_tags i.tags) _ h6 in
      subst (IsPlaced i) (ok-injective h7) (
        place_of-IsPlaced i
          (record {
            name = name;
            description = desc;
            location = place.0;
            schema = schema;
            tags = tags;
            owner = owner;
            format = format;
            postgres_table = place.1;
          })
          place refl refl format p refl q)
