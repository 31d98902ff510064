-- ===== src/Data/Service/Rows.antt =====
-- The rows that Create and Update make of a normalized input, field by field (internal/data/service.go).
use booth_catalog.Prelude.{
  false, [], ◌==◌, nat_eq, list_eq, eq_iff, none, ◌≡◌, ◌≢◌, ◌⊎◌, inl, inr, refl, arith, Bool-cases,
}
use booth_catalog.Text.{Text}
use booth_catalog.Asset.Actor.{Actor}
use booth_catalog.Data.Model.{Time, Format, Source, Dataset, Input}
use booth_catalog.Data.Service.{or_else, source_of, registered, edited}

-- An owner that is given, or another name where none is.
abbrev pub IsOwner : Text → Text → Text → Type 0
IsOwner given other owner = ((given ≢ []) × (owner ≡ given)) ⊎ ((given ≡ []) × (owner ≡ other))

-- A row that people write is marked so if it is a database table, and has no mark otherwise.
abbrev pub IsManual : Format → Source → Type 0
IsManual f s =
    ((f ≡ Format.postgres) × (s ≡ Source.manual)) ⊎ ((f ≢ Format.postgres) × (s ≡ Source.unset))

pub record IsRegistered (new_id ws : Text) (actor : Actor) (now : Time) (i : Input) (d : Dataset)
    : Type 0 where
  pub id : d.id ≡ new_id
  pub workspace : d.workspace ≡ ws
  pub name : d.name ≡ i.name
  pub description : d.description ≡ i.description
  pub location : d.location ≡ i.location
  pub schema : d.schema ≡ i.schema
  pub tags : d.tags ≡ i.tags
  pub format : d.format ≡ i.format
  pub postgres_table : d.postgres_table ≡ i.postgres_table
  pub source : IsManual i.format d.source
  pub updated_at : d.updated_at ≡ now
  pub owner : IsOwner i.owner actor.display_name d.owner
  pub created_by : d.created_by ≡ actor.subject
  pub created_at : d.created_at ≡ now
  pub table : d.table ≡ none
  pub source_module : d.source_module ≡ []
  pub kind : d.kind ≡ []
  pub approx_rows : d.approx_rows ≡ none
  pub missing : d.missing ≡ false

pub record IsEdited (cur : Dataset) (now : Time) (i : Input) (d : Dataset) : Type 0 where
  pub id : d.id ≡ cur.id
  pub workspace : d.workspace ≡ cur.workspace
  pub name : d.name ≡ i.name
  pub description : d.description ≡ i.description
  pub location : d.location ≡ i.location
  pub schema : d.schema ≡ i.schema
  pub tags : d.tags ≡ i.tags
  pub format : d.format ≡ i.format
  pub postgres_table : d.postgres_table ≡ i.postgres_table
  pub source : IsManual i.format d.source
  pub updated_at : d.updated_at ≡ now
  pub owner : IsOwner i.owner cur.owner d.owner
  pub created_by : d.created_by ≡ cur.created_by
  pub created_at : d.created_at ≡ cur.created_at
  pub table : d.table ≡ cur.table
  pub source_module : d.source_module ≡ cur.source_module
  pub kind : d.kind ≡ cur.kind
  pub approx_rows : d.approx_rows ≡ cur.approx_rows
  pub missing : d.missing ≡ cur.missing

or_else-IsOwner : (given other : Text) → IsOwner given other (or_else given other)
or_else-IsOwner given other = elim (Bool-cases (given == [])) [
  | inl p ↦ rw p (inr ((eq_iff given []).0 p, refl))
  | inr p ↦ rw p (inl (ground (arith, eq_iff given []), refl))
]

source_of-IsManual : (f : Format) → IsManual f (source_of f)
source_of-IsManual Format.unset = inr (ground arith, refl)
source_of-IsManual Format.file = inr (ground arith, refl)
source_of-IsManual Format.iceberg = inr (ground arith, refl)
source_of-IsManual Format.postgres = inl (refl, refl)
source_of-IsManual (Format.other t) = inr (ground arith, refl)

pub registered-IsRegistered :
    (id ws : Text) (actor : Actor) (now : Time) (i : Input)
    → IsRegistered id ws actor now i (registered id ws actor now i)
registered-IsRegistered id ws actor now i = record {
  id = refl;
  workspace = refl;
  name = refl;
  description = refl;
  location = refl;
  schema = refl;
  tags = refl;
  format = refl;
  postgres_table = refl;
  source = source_of-IsManual i.format;
  updated_at = refl;
  owner = or_else-IsOwner i.owner actor.display_name;
  created_by = refl;
  created_at = refl;
  table = refl;
  source_module = refl;
  kind = refl;
  approx_rows = refl;
  missing = refl;
}

pub edited-IsEdited :
    (cur : Dataset) (now : Time) (i : Input) → IsEdited cur now i (edited cur now i)
edited-IsEdited cur now i = record {
  id = refl;
  workspace = refl;
  name = refl;
  description = refl;
  location = refl;
  schema = refl;
  tags = refl;
  format = refl;
  postgres_table = refl;
  source = source_of-IsManual i.format;
  updated_at = refl;
  owner = or_else-IsOwner i.owner cur.owner;
  created_by = refl;
  created_at = refl;
  table = refl;
  source_module = refl;
  kind = refl;
  approx_rows = refl;
  missing = refl;
}
