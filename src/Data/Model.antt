-- ===== src/Data/Model.antt =====
-- The records of internal/data/model.go. A Go string type with named constants is a data type with
-- one constructor for each constant and one for any other string.
use booth_catalog.Prelude.{ℕ, Bool, true, false, List, ℤ, Option}
use booth_catalog.Text.{Text}
use booth_catalog.Asset.Location.{Location}

abbrev pub max_name : ℕ
max_name = 200

abbrev pub max_description : ℕ
max_description = 4000

abbrev pub max_owner : ℕ
max_owner = 200

abbrev pub max_columns : ℕ
max_columns = 1000

abbrev pub max_column_type : ℕ
max_column_type = 100

abbrev pub max_column_desc : ℕ
max_column_desc = 1000

abbrev pub max_tags : ℕ
max_tags = 20

abbrev pub max_tag_len : ℕ
max_tag_len = 50

abbrev pub max_namespace : ℕ
max_namespace = 200

abbrev pub max_table_name : ℕ
max_table_name = 200

abbrev pub max_uuid : ℕ
max_uuid = 64

abbrev pub max_pg_ident : ℕ
max_pg_ident = 63

abbrev pub max_kind : ℕ
max_kind = 50

-- Instants, in nanoseconds since two leap years before Go's zero time,
-- which is before every instant that an event can carry.
abbrev pub Time : Type 0
Time = ℕ

abbrev pub zero_time : Time
zero_time = 63_244_800_000_000_000

-- `unset` is the empty string.
pub data Format : Type 0 where
  unset file iceberg postgres : Format
  other : Text → Format

abbrev pub is_iceberg : Format → Bool
is_iceberg iceberg = true
is_iceberg _ = false

abbrev pub is_postgres : Format → Bool
is_postgres postgres = true
is_postgres _ = false

pub data Source : Type 0 where
  unset manual auto : Source

abbrev pub is_manual : Source → Bool
is_manual manual = true
is_manual _ = false

abbrev pub is_auto : Source → Bool
is_auto auto = true
is_auto _ = false

pub record TableRef : Type 0 where
  pub namespace : Text
  pub name : Text
  pub uuid : Text
  pub current_snapshot_id : Option ℤ

pub record PostgresTableRef : Type 0 where
  pub schema : Text
  pub name : Text

pub record Column : Type 0 where
  pub name : Text
  pub type : Text
  pub description : Text
  pub nullable : Bool

pub record Dataset : Type 0 where
  pub id : Text
  pub workspace : Text
  pub name : Text
  pub description : Text
  pub location : Location
  pub schema : List Column
  pub tags : List Text
  pub owner : Text
  pub created_by : Text
  pub created_at : Time
  pub updated_at : Time
  pub format : Format
  pub table : Option TableRef
  pub source_module : Text
  pub postgres_table : Option PostgresTableRef
  pub source : Source
  pub kind : Text
  pub approx_rows : Option ℤ
  pub missing : Bool

pub record Input : Type 0 where
  pub name : Text
  pub description : Text
  pub location : Location
  pub schema : List Column
  pub tags : List Text
  pub owner : Text
  pub format : Format
  pub postgres_table : Option PostgresTableRef

pub record TableUpsert : Type 0 where
  pub workspace : Text
  pub source_module : Text
  pub namespace : Text
  pub name : Text
  pub uuid : Text
  pub location : Location
  pub schema : List Column
  pub current_snapshot_id : Option ℤ
  pub at : Time
  pub new_id : Text
  pub received_at : Time

pub record PostgresTableUpsert : Type 0 where
  pub workspace : Text
  pub source_module : Text
  pub schema : Text
  pub name : Text
  pub kind : Text
  pub comment : Text
  pub columns : List Column
  pub approx_rows : Option ℤ
  pub at : Time
  pub new_id : Text
  pub received_at : Time

pub record ListFilter : Type 0 where
  pub query : Text
  pub tags : List Text
  pub owner : Text
  pub limit : ℤ
  pub offset : ℤ

pub record TagCount : Type 0 where
  pub tag : Text
  pub count : ℕ
