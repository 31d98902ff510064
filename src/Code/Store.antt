-- ===== src/Code/Store.antt =====
-- internal/code/memory.go: the in-memory store of code entries. A record that Go shares by a pointer
-- is written back to its map here, under the ID it was read by.
pub mod Laws
pub mod Reach
pub mod Placed
use booth_catalog.Prelude.{
  ℕ, Bool, true, false, not, ◌&&◌, ◌||◌, List, [], ◌∷◌, ◌++◌, suc, ◌==◌, nat_eq, list_eq,
  if◌then◌else◌, case_option, Option, none, some, any, map, length, sort_stable,
}
use booth_catalog.Prelude.GoMap
use booth_catalog.Prelude.GoMap.{GoMap}
use booth_catalog.Text.{Text, txt, Casing, to_lower, text_lt, byte_len, equal_fold}
use booth_catalog.Asset.Error.{Result, ok, err, not_found, exists}
use booth_catalog.Asset.Matching.{terms, matches_all, code}
use booth_catalog.Asset.Paging.{Page, page}
use booth_catalog.Asset.Hits.{Hit, sort_hits}
use booth_catalog.Data.Store.{at_ws}
use booth_catalog.Data.Store.Queries.{cut}
use booth_catalog.Code.Model.{VersionSummary, Version, Entry, ListFilter}

-- `record`: an entry and its versions in publication order.
pub record Item : Type 0 where
  pub entry : Entry
  pub versions : List Version

abbrev pub MemoryStore : Type 0
MemoryStore = Text → GoMap Text Item

abbrev pub new_store : MemoryStore
new_store ws = []

abbrev pub last_summary : List Version → Option VersionSummary
last_summary [] = none
last_summary (v ∷ []) = some v.summary
last_summary (v ∷ w ∷ vs) = last_summary (w ∷ vs)

abbrev pub view : Item → Entry
view r = record r.entry { version_count = length r.versions; latest = last_summary r.versions }

unfoldable pub name_taken : MemoryStore → Text → Text → Text → Bool
name_taken m ws name except_id =
    any (λ (id, r). not (id == except_id) && r.entry.name == name) (m ws)

-- sized, with the sequence number that the store gives.
abbrev pub numbered : ℕ → Version → Version
numbered n v = record v {
  summary = record v.summary { seq_no = n; size_bytes = byte_len v.source };
}

abbrev pub write : Text → Text → Item → MemoryStore → MemoryStore
write ws id r m = at_ws ws (GoMap.put id r (m ws)) m

abbrev pub undescribed : Entry → Entry
undescribed e = record e { latest = none; version_count = 0 }

unfoldable pub create : MemoryStore → Entry → Version → Result (Unit {0}) × MemoryStore
create m e first = if name_taken m e.workspace e.name [] then (err exists, m) else (
  ok tt,
  write e.workspace e.id (record { entry = undescribed e; versions = numbered 1 first ∷ [] }) m,
)

unfoldable pub find : MemoryStore → Text → Text → Option Item
find m ws id = GoMap.get id (m ws)

unfoldable pub get : MemoryStore → Text → Text → Result Entry
get m ws id = case_option (find m ws id) (err not_found) (λ r. ok (view r))

abbrev pub described : Entry → Entry → Entry
described cur e = record cur {
  name = e.name;
  description = e.description;
  owner = e.owner;
  language = e.language;
  updated_at = e.updated_at;
}

unfoldable pub update : MemoryStore → Entry → Result (Unit {0}) × MemoryStore
update m e =
    case_option (find m e.workspace e.id) (err not_found, m)
      (λ r.
        if name_taken m e.workspace e.name e.id
        then (err exists, m)
        else (ok tt, write e.workspace e.id (record r { entry = described r.entry e }) m))

unfoldable pub delete : MemoryStore → Text → Text → Result (Unit {0}) × MemoryStore
delete m ws id =
    case_option (find m ws id) (err not_found, m)
      (λ r. (ok tt, at_ws ws (GoMap.delete id (m ws)) m))

abbrev pub has_label : Text → Version → Bool
has_label label v = v.summary.version == label

abbrev pub published : Item → Version → Item
published r v = record {
  entry = record r.entry { updated_at = v.summary.published_at };
  versions = r.versions ++ numbered (suc (length r.versions)) v ∷ [];
}

unfoldable pub add_version : MemoryStore → Text → Text → Version → Result Version × MemoryStore
add_version m ws id v =
    case_option (find m ws id) (err not_found, m)
      (λ r.
        if any (has_label v.summary.version) r.versions
        then (err exists, m)
        else (ok (numbered (suc (length r.versions)) v), write ws id (published r v) m))

abbrev pub newest_first : List Version → List VersionSummary
newest_first [] = []
newest_first (v ∷ vs) = newest_first vs ++ v.summary ∷ []

unfoldable pub versions : MemoryStore → Text → Text → Result (List VersionSummary)
versions m ws id = case_option (find m ws id) (err not_found) (λ r. ok (newest_first r.versions))

abbrev pub first_labelled : Text → List Version → Option Version
first_labelled label [] = none
first_labelled label (v ∷ vs) = if has_label label v then some v else first_labelled label vs

unfoldable pub get_version : MemoryStore → Text → Text → Text → Result Version
get_version m ws id label =
    case_option (find m ws id) (err not_found)
      (λ r. case_option (first_labelled label r.versions) (err not_found) (λ v. ok v))

abbrev pub search_text : Entry → List Text
search_text e = e.name ∷ e.description ∷ []

-- The loop of the queries.
unfoldable pub select : (Entry → Bool) → GoMap Text Item → List Entry
select p [] = []
select p ((id, r) ∷ rows) = let rest = select p rows in if p (view r) then view r ∷ rest else rest

module _ ⦃u : Casing⦄ where
  abbrev pub name_less : Entry → Entry → Bool
  name_less a b =
      let an = to_lower a.name in
      let bn = to_lower b.name in if not (an == bn) then text_lt an bn else text_lt a.id b.id

  abbrev pub listed : ListFilter → Entry → Bool
  listed f e =
      matches_all (terms f.query) (search_text e)
      && (f.owner == [] || equal_fold e.owner f.owner)
      && (f.language == [] || e.language == f.language)

  unfoldable pub list : MemoryStore → Text → ListFilter → Page Entry
  list m ws f = page (sort_stable name_less (select (listed f) (m ws))) f.limit f.offset

  abbrev pub hit_of : List Text → Entry → Hit
  hit_of ts e = record {
    type = code;
    id = e.id;
    name = e.name;
    description = e.description;
    owner = e.owner;
    source = [];
    name_match = matches_all ts (e.name ∷ []);
  }

  unfoldable pub search : MemoryStore → Text → Text → ℕ → List Hit
  search m ws query limit =
      let ts = terms query in
      cut limit (
        sort_hits
          (map (hit_of ts) (select (λ e. not (ts == []) && matches_all ts (search_text e)) (m ws))))
