-- ===== src/Data/Store.antt =====
-- internal/data/memory.go: the in-memory store of datasets. Each method holds the store's lock from
-- beginning to end, and is one step here. The outer maps, by workspace, are functions: a workspace
-- that has no map yet reads as one with an empty map, and `ensureWorkspace`, which makes the empty
-- maps before a write, changes nothing that can be read. Rows are values, so `clone` is the identity.
pub mod Events
pub mod Invariant
pub mod Placed
pub mod Kept
pub mod Find
pub mod Reach
pub mod LastWriter
pub mod Queries
use booth_catalog.Prelude.{
  ℕ, Bool, true, false, not, ◌&&◌, ◌||◌, List, [], ◌∷◌, ◌++◌, ltb, ◌==◌, nat_eq, list_eq,
  if◌then◌else◌, case_option, Option, none, some, any, all, map, length, take, sort_stable, ◌≡◌,
  arith,
}
use booth_catalog.Prelude.GoMap
use booth_catalog.Prelude.GoMap.{GoMap}
use booth_catalog.Text.{Text, txt, Casing, to_lower, text_lt, join, equal_fold}
use booth_catalog.Asset.Error.{Error, Result, ok, err, not_found, exists}
use booth_catalog.Asset.Location.{Location, no_location, path_contains}
use booth_catalog.Asset.Matching.{terms, matches_all, data_type}
use booth_catalog.Asset.Paging.{Page, page}
use booth_catalog.Asset.Hits.{Hit, sort_hits}
use booth_catalog.Data.Model.{
  Time, Format, iceberg, postgres, unset, is_iceberg, is_postgres, Source, manual, auto, is_manual,
  TableRef, PostgresTableRef, Column, Dataset, TableUpsert, PostgresTableUpsert, ListFilter,
  TagCount,
}

pub record MemoryStore : Type 0 where
  pub by_ws : Text → GoMap Text Dataset
  pub tombstoned : Text → GoMap Text Bool

-- A Go map with one entry written.
abbrev pub at_ws {ℓ} : {V : Type ℓ} → Text → V → (Text → V) → Text → V
at_ws ws v f w = if ws == w then v else f w

abbrev pub new_store : MemoryStore
new_store = record { by_ws = λ ws. []; tombstoned = λ ws. [] }

-- A Go map of Booleans reads `false` where it has no entry.
abbrev pub flag : Text → GoMap Text Bool → Bool
flag id flags = elim (GoMap.get id flags) [ none ↦ false | some b ↦ b ]

-- m.tombstoned[ws][id]
abbrev pub is_dead : MemoryStore → Text → Text → Bool
is_dead m ws id = flag id (m.tombstoned ws)

-- m.byWS[d.Workspace][d.ID] = d
abbrev pub write : Text → Dataset → MemoryStore → MemoryStore
write ws d m = record m { by_ws = at_ws ws (GoMap.put d.id d (m.by_ws ws)) m.by_ws }

abbrev pub bury : Text → Text → MemoryStore → MemoryStore
bury ws id m = record m { tombstoned = at_ws ws (GoMap.put id true (m.tombstoned ws)) m.tombstoned }

abbrev pub revive : Text → Text → MemoryStore → MemoryStore
revive ws id m = record m { tombstoned = at_ws ws (GoMap.delete id (m.tombstoned ws)) m.tombstoned }

unfoldable pub name_taken : MemoryStore → Text → Text → Text → Bool
name_taken m ws name except_id =
    any (λ (id, d). not (id == except_id) && d.name == name && not (is_dead m ws id)) (m.by_ws ws)

abbrev has_uuid : Text → Option TableRef → Bool
has_uuid uuid none = false
has_uuid uuid (some t) = t.uuid == uuid

abbrev pub is_table : Text → Text → Dataset → Bool
is_table source_module uuid d =
    is_iceberg d.format && d.source_module == source_module && has_uuid uuid d.table

abbrev value_of {ℓ κ} : {K : Type ℓ} {V : Type κ} → Option (K × V) → Option V
value_of none = none
value_of (some (k, v)) = some v

unfoldable pub find_table : MemoryStore → Text → Text → Text → Option Dataset
find_table m ws source_module uuid =
    value_of (GoMap.find (λ id d. is_table source_module uuid d) (m.by_ws ws))

abbrev names_table : Text → Text → Option PostgresTableRef → Bool
names_table schema name none = false
names_table schema name (some t) = t.schema == schema && t.name == name

abbrev pub is_postgres_table : Text → Text → Dataset → Bool
is_postgres_table schema name d = is_postgres d.format && names_table schema name d.postgres_table

unfoldable pub find_postgres_table : MemoryStore → Text → Text → Text → Option Dataset
find_postgres_table m ws schema name =
    value_of (GoMap.find (λ id d. is_postgres_table schema name d) (m.by_ws ws))

-- A method that writes returns its error, or nil, and the store that it leaves.
unfoldable pub create : MemoryStore → Dataset → Result (Unit {0}) × MemoryStore
create m d =
    if name_taken m d.workspace d.name [] then (err exists, m) else (ok tt, write d.workspace d m)

-- A row that reads do not see, or none.
unfoldable pub lookup : MemoryStore → Text → Text → Option Dataset
lookup m ws id = if is_dead m ws id then none else GoMap.get id (m.by_ws ws)

pub lookup-eq-some :
    (m : MemoryStore) (ws id : Text) (d : Dataset)
    → lookup m ws id ≡ some d
    → (is_dead m ws id ≡ false) × (GoMap.get id (m.by_ws ws) ≡ some d)
unfolding lookup
lookup-eq-some m ws id d h = ground arith

unfoldable pub get : MemoryStore → Text → Text → Result Dataset
get m ws id = elim (lookup m ws id) [ none ↦ err not_found | some d ↦ ok d ]

pub get_of_lookup :
    (m : MemoryStore) (ws id : Text) (d : Dataset) → lookup m ws id ≡ some d → get m ws id ≡ ok d
unfolding get
get_of_lookup m ws id d h = ground arith

pub get-eq-ok :
    (m : MemoryStore) (ws id : Text) (d : Dataset) → get m ws id ≡ ok d → lookup m ws id ≡ some d
unfolding get
get-eq-ok m ws id d h = ground arith

-- Only the mutable fields change. `Source` is not among them.
abbrev pub updated : Dataset → Dataset → Dataset
updated cur d = record cur {
  name = d.name;
  description = d.description;
  location = d.location;
  schema = d.schema;
  tags = d.tags;
  owner = d.owner;
  updated_at = d.updated_at;
  format = d.format;
  postgres_table = d.postgres_table;
}

unfoldable pub update : MemoryStore → Dataset → Result (Unit {0}) × MemoryStore
update m d =
    case_option (lookup m d.workspace d.id) (err not_found, m)
      (λ cur.
        if name_taken m d.workspace d.name d.id
        then (err exists, m)
        else (ok tt, write d.workspace (updated cur d) m))

unfoldable pub delete : MemoryStore → Text → Text → Result (Unit {0}) × MemoryStore
delete m ws id =
    case_option (lookup m ws id) (err not_found, m)
      (λ cur. (ok tt, record m { by_ws = at_ws ws (GoMap.delete id (m.by_ws ws)) m.by_ws }))
