-- ===== src/Data/Input/Placed.antt =====
-- Where the data of an accepted input lies (internal/data/model.go: Input.Normalize).
use booth_catalog.Prelude.{
  true, false, not, ◌≤◌, ◌==◌, eq_iff, nat_eq, list_eq, length, Option, none, some, ◌≡◌, ◌⊎◌, inl,
  inr, refl, arith, Option-cases, sym, subst, ap, ◌∙◌, case_option,
}
use booth_catalog.Text.{Text, txt, trim_space, Casing}
use booth_catalog.Regexp.{matches}
use booth_catalog.Asset.Error.{ok, err, invalid, ◌>>=◌, refuse_if, bind-eq-ok, ok-injective}
use booth_catalog.Asset.Validation.{text}
use booth_catalog.Asset.Validation.Laws.{text_iff}
use booth_catalog.Asset.Location.{Location, no_location, location_eq, normalize_location}
use booth_catalog.Data.Model.{max_pg_ident, Format, file, postgres, PostgresTableRef, Input}
use booth_catalog.Data.Input.{pg_ident_re, normalize_postgres_table, format_of, place_of}

-- The trimmed name, which is an identifier of at most 63 characters.
pub record IsIdentifier (raw name : Text) : Type 0 where
  pub trimmed : name ≡ trim_space raw
  pub grammar : matches pg_ident_re name ≡ true
  pub fits : length name ≤ 63

-- An accepted input, and what it becomes.
pub record IsFile (i out : Input) : Type 0 where
  pub asked : (i.format ≡ Format.unset) ⊎ (i.format ≡ file)
  pub format : out.format ≡ file
  pub no_table : i.postgres_table ≡ none
  pub table : out.postgres_table ≡ none
  pub location : normalize_location (txt "location") i.location ≡ ok out.location

pub record IsDatabaseTable (i out : Input) : Type 0 where
  pub asked : i.format ≡ postgres
  pub format : out.format ≡ postgres
  pub nowhere : i.location ≡ no_location
  pub location : out.location ≡ no_location
  pub table :
      (r : PostgresTableRef) × (r' : PostgresTableRef) × (i.postgres_table ≡ some r)
      × (out.postgres_table ≡ some r')
      × IsIdentifier r.schema r'.schema
      × IsIdentifier r.name r'.name

abbrev pub IsPlaced : Input → Input → Type 0
IsPlaced i out = IsFile i out ⊎ IsDatabaseTable i out

identifier :
    (field raw name : Text)
    → text field raw max_pg_ident true false ≡ ok name
    → matches pg_ident_re name ≡ true
    → IsIdentifier raw name
identifier field raw name h m =
    let is = (text_iff field raw max_pg_ident true false name).0 h in
    record { trimmed = is.trimmed; grammar = m; fits = is.fits }

normalize_postgres_table-IsIdentifier :
    (r r' : PostgresTableRef)
    → normalize_postgres_table r ≡ ok r'
    → IsIdentifier r.schema r'.schema × IsIdentifier r.name r'.name
unfolding normalize_postgres_table
normalize_postgres_table-IsIdentifier r r' h =
    let (schema, p, h1) =
      bind-eq-ok (text (txt "postgresTable.schema") r.schema max_pg_ident true false) _ h in
    let (_, good, h2) =
      bind-eq-ok (refuse_if (not (matches pg_ident_re schema)) (txt "postgresTable.schema")) _ h1 in
    let (name, q, h3) =
      bind-eq-ok (text (txt "postgresTable.name") r.name max_pg_ident true false) _ h2 in
    let (_, good', h4) =
      bind-eq-ok (refuse_if (not (matches pg_ident_re name)) (txt "postgresTable.name")) _ h3 in
    subst (λ x. IsIdentifier r.schema x.schema × IsIdentifier r.name x.name) (ok-injective h4)
      (
        identifier (txt "postgresTable.schema") r.schema schema p (ground arith),
        identifier (txt "postgresTable.name") r.name name q (ground arith),
      )

module _ ⦃u : Casing⦄ where
  format_of-cases :
      (f g : Format)
      → format_of f ≡ ok g
      → (((f ≡ Format.unset) ⊎ (f ≡ file)) × (g ≡ file)) ⊎ ((f ≡ postgres) × (g ≡ postgres))
  format_of-cases Format.unset g h = inl (inl refl, ground arith)
  format_of-cases Format.file g h = inl (inr refl, ground arith)
  format_of-cases Format.iceberg g h = absurd (ground arith)
  format_of-cases Format.postgres g h = inr (refl, ground arith)
  format_of-cases (Format.other t) g h = absurd (ground arith)

module _ ⦃u : Casing⦄ (i out : Input) (place : Location × Option PostgresTableRef)
    (there : out.location ≡ place.0) (which : out.postgres_table ≡ place.1) where
  place_of-IsFile :
      (i.format ≡ Format.unset) ⊎ (i.format ≡ file)
      → out.format ≡ file
      → place_of file i ≡ ok place
      → IsFile i out
  place_of-IsFile asked f h = elim (Option-cases i.postgres_table) [
    | inl p ↦
        let (l, q, h1) = bind-eq-ok (normalize_location (txt "location") i.location) _ (
          subst
            (λ x.
              case_option x (normalize_location (txt "location") i.location >>= λ l. ok (l, none))
                (λ t. err (invalid (txt "postgresTable")))
              ≡ ok place)
            p h) in
        record {
          asked = asked;
          format = f;
          no_table = p;
          table = which ∙ sym (ap (λ x. x.1) (ok-injective h1));
          location = q ∙ ap ok (ap (λ x. x.0) (ok-injective h1) ∙ sym there);
        }
    | inr (r, p) ↦ absurd (ground arith)
  ]

  place_of-IsDatabaseTable :
      i.format ≡ postgres
      → out.format ≡ postgres
      → place_of postgres i ≡ ok place
      → IsDatabaseTable i out
  place_of-IsDatabaseTable asked f h =
      let (_, empty, h1) =
        bind-eq-ok (refuse_if (not (i.location == no_location)) (txt "location")) _ h in
      elim (Option-cases i.postgres_table) [
        | inl p ↦ absurd (ground arith)
        | inr (r, p) ↦
            let (r', q, h2) = bind-eq-ok (normalize_postgres_table r) _ (
              subst
                (λ x.
                  case_option x (err (invalid (txt "postgresTable")))
                    (λ t. normalize_postgres_table t >>= λ t'. ok (no_location, some t'))
                  ≡ ok place)
                p h1) in
            record {
              asked = asked;
              format = f;
              nowhere = ground (arith, eq_iff i.location no_location);
              location = there ∙ sym (ap (λ x. x.0) (ok-injective h2));
              table = (
                r,
                r',
                p,
                which ∙ sym (ap (λ x. x.1) (ok-injective h2)),
                (normalize_postgres_table-IsIdentifier r r' q).0,
                (normalize_postgres_table-IsIdentifier r r' q).1,
              );
            }
      ]

  pub place_of-IsPlaced :
      (f : Format)
      → format_of i.format ≡ ok f
      → out.format ≡ f
      → place_of f i ≡ ok place
      → IsPlaced i out
  place_of-IsPlaced f p is h = elim (format_of-cases i.format f p) [
    | inl (asked, e) ↦
        inl (place_of-IsFile asked (is ∙ e) (subst (λ x. place_of x i ≡ ok place) e h))
    | inr (asked, e) ↦
        inr (place_of-IsDatabaseTable asked (is ∙ e) (subst (λ x. place_of x i ≡ ok place) e h))
  ]
