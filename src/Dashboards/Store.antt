-- ===== src/Dashboards/Store.antt =====
-- internal/dashboards/memory.go: the in-memory store of dashboards, under one lock like that of
-- datasets. A row that Go shares by a pointer is written back to its map here, under its ID.
pub mod Register
pub mod Newest
pub mod Elsewhere
use booth_catalog.Prelude.{
  ℕ, Bool, true, false, not, ◌&&◌, ◌||◌, List, [], ◌∷◌, ltb, ◌==◌, nat_eq, list_eq, if◌then◌else◌,
  case_option, Option, none, some, any, map, sort_stable,
}
use booth_catalog.Prelude.GoMap
use booth_catalog.Prelude.GoMap.{GoMap}
use booth_catalog.Text.{Text, Casing, to_lower, text_lt, equal_fold}
use booth_catalog.Asset.Error.{Result, ok, err, not_found}
use booth_catalog.Asset.Location.{Location, path_contains}
use booth_catalog.Asset.Matching.{terms, matches_all, dashboard}
use booth_catalog.Asset.Paging.{Page, page}
use booth_catalog.Asset.Hits.{Hit, sort_hits}
use booth_catalog.Data.Model.{Time, zero_time}
use booth_catalog.Data.Store.{at_ws, flag}
use booth_catalog.Data.Store.Queries.{cut}
use booth_catalog.Dashboards.Model.{
  SourceType, source_type_eq, Source, source_eq, Dashboard, Upsert, ListFilter,
}

pub record MemoryStore : Type 0 where
  pub by_ws : Text → GoMap Text Dashboard
  pub tombstoned : Text → GoMap Text Bool

abbrev pub new_store : MemoryStore
new_store = record { by_ws = λ ws. []; tombstoned = λ ws. [] }

abbrev pub is_dead : MemoryStore → Text → Text → Bool
is_dead m ws id = flag id (m.tombstoned ws)

abbrev pub write : Text → Dashboard → MemoryStore → MemoryStore
write ws d m = record m { by_ws = at_ws ws (GoMap.put d.id d (m.by_ws ws)) m.by_ws }

abbrev pub bury : Text → Text → MemoryStore → MemoryStore
bury ws id m = record m { tombstoned = at_ws ws (GoMap.put id true (m.tombstoned ws)) m.tombstoned }

abbrev pub revive : Text → Text → MemoryStore → MemoryStore
revive ws id m = record m { tombstoned = at_ws ws (GoMap.delete id (m.tombstoned ws)) m.tombstoned }

abbrev pub is_published : Text → Text → Dashboard → Bool
is_published source_module external_id d =
    d.source_module == source_module && d.external_id == external_id

abbrev pub second {ℓ κ} : {K : Type ℓ} {V : Type κ} → Option (K × V) → Option V
second none = none
second (some (k, v)) = some v

unfoldable pub find : MemoryStore → Text → Text → Text → Option Dashboard
find m ws source_module external_id =
    second (GoMap.find (λ id d. is_published source_module external_id d) (m.by_ws ws))

-- A Dashboard{} with its identity and its creation time.
abbrev pub blank : Text → Text → Text → Text → Time → Dashboard
blank id ws source_module external_id created = record {
  id = id;
  workspace = ws;
  source_module = source_module;
  external_id = external_id;
  name = [];
  description = [];
  owner = [];
  path = [];
  lineage_complete = false;
  sources = [];
  created_at = created;
  updated_at = zero_time;
}

-- cur != nil && cur.UpdatedAt.After(at)
abbrev pub is_stale : Option Dashboard → Time → Bool
is_stale none at = false
is_stale (some cur) at = ltb at cur.updated_at

abbrev pub or_blank : Option Dashboard → Dashboard → Dashboard
or_blank none d = d
or_blank (some cur) d = cur

abbrev pub refreshed : Upsert → Dashboard → Dashboard
refreshed u d = record d {
  name = u.name;
  description = u.description;
  owner = u.owner;
  path = u.path;
  lineage_complete = u.lineage_complete;
  sources = u.sources;
  updated_at = u.at;
}

unfoldable pub apply : MemoryStore → Upsert → Result Bool × MemoryStore
apply m u =
    let ws = u.workspace in
    let cur = find m ws u.source_module u.external_id in
    if is_stale cur u.at
    then (ok false, m)
    else let d =
        refreshed u
          (or_blank cur (blank u.new_id ws u.source_module u.external_id u.received_at)) in
      if is_dead m ws d.id
      then (ok true, write ws (record d { created_at = u.received_at }) (revive ws d.id m))
      else (ok true, write ws d m)

unfoldable pub remove : MemoryStore → Text → Text → Text → Time → Text → Result Bool × MemoryStore
remove m ws source_module external_id at new_id =
    let cur = find m ws source_module external_id in
    if is_stale cur at
    then (ok false, m)
    else let d = or_blank cur (blank new_id ws source_module external_id at) in
      (ok true, bury ws d.id (write ws (record d { updated_at = at; sources = [] }) m))

unfoldable pub live : MemoryStore → Text → Text → Option Dashboard
live m ws id = if is_dead m ws id then none else GoMap.get id (m.by_ws ws)

unfoldable pub get : MemoryStore → Text → Text → Result Dashboard
get m ws id = case_option (live m ws id) (err not_found) (λ d. ok d)

unfoldable pub select :
    MemoryStore → Text → (Dashboard → Bool) → GoMap Text Dashboard → List Dashboard
select m ws p [] = []
select m ws p ((id, d) ∷ rows) =
    let rest = select m ws p rows in if not (is_dead m ws id) && p d then d ∷ rest else rest

abbrev pub selected : MemoryStore → Text → (Dashboard → Bool) → List Dashboard
selected m ws p = select m ws p (m.by_ws ws)

-- Listings carry no sources.
abbrev pub unsourced : Dashboard → Dashboard
unsourced d = record d { sources = [] }

abbrev pub search_text : Dashboard → List Text
search_text d = d.name ∷ d.description ∷ []

-- A source that is a dataset by its ID, or a location in the dataset's.
abbrev pub reads : Text → Location → Source → Bool
reads dataset_id loc s =
    (s.type == SourceType.dataset && s.dataset_id == dataset_id)
    || (s.type == SourceType.location
        && s.backend_id == loc.backend_id
        && path_contains loc.path s.path)

module _ ⦃u : Casing⦄ where
  abbrev pub name_less : Dashboard → Dashboard → Bool
  name_less a b =
      let an = to_lower a.name in
      let bn = to_lower b.name in if not (an == bn) then text_lt an bn else text_lt a.id b.id

  unfoldable pub sort_by_name : List Dashboard → List Dashboard
  sort_by_name ds = sort_stable name_less ds

  abbrev pub listed : ListFilter → Dashboard → Bool
  listed f d =
      matches_all (terms f.query) (search_text d)
      && (f.owner == [] || equal_fold d.owner f.owner)
      && (f.source_module == [] || d.source_module == f.source_module)

  unfoldable pub list : MemoryStore → Text → ListFilter → Page Dashboard
  list m ws f = page (sort_by_name (map unsourced (selected m ws (listed f)))) f.limit f.offset

  unfoldable pub reading_dataset : MemoryStore → Text → Text → Location → List Dashboard
  reading_dataset m ws dataset_id loc =
      sort_by_name (map unsourced (selected m ws (λ d. any (reads dataset_id loc) d.sources)))

  abbrev pub hit_of : List Text → Dashboard → Hit
  hit_of ts d = record {
    type = dashboard;
    id = d.id;
    name = d.name;
    description = d.description;
    owner = d.owner;
    source = d.source_module;
    name_match = matches_all ts (d.name ∷ []);
  }

  unfoldable pub search : MemoryStore → Text → Text → ℕ → List Hit
  search m ws query limit =
      let ts = terms query in
      cut limit (
        sort_hits
          (map (hit_of ts) (selected m ws (λ d. not (ts == []) && matches_all ts (search_text d)))))
