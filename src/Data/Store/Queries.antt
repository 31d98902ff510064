-- ===== src/Data/Store/Queries.antt =====
-- internal/data/memory.go: the queries. A listing is sorted, so that the order in which `range` goes
-- through the map does not show.
use booth_catalog.Prelude.{
  ℕ, Bool, true, none, some, not, ◌&&◌, ◌||◌, List, [], ◌∷◌, ◌==◌, nat_eq, list_eq, if◌then◌else◌,
  any, all, take, sort_stable, suc, zero, map,
}
use booth_catalog.Prelude.GoMap
use booth_catalog.Prelude.GoMap.{GoMap}
use booth_catalog.Text.{Text, txt, Casing, to_lower, text_lt, join, equal_fold}
use booth_catalog.Asset.Location.{Location, path_contains}
use booth_catalog.Asset.Matching.{terms, matches_all, data_type}
use booth_catalog.Asset.Paging.{Page, page}
use booth_catalog.Asset.Hits.{Hit, sort_hits}
use booth_catalog.Data.Model.{Dataset, ListFilter, TagCount}
use booth_catalog.Data.Store.{MemoryStore, is_dead}

-- The rows of a workspace that are not tombstoned and have a property: the loop of every query.
unfoldable pub select : MemoryStore → Text → (Dataset → Bool) → GoMap Text Dataset → List Dataset
select m ws p [] = []
select m ws p ((id, d) ∷ rows) =
    let rest = select m ws p rows in if not (is_dead m ws id) && p d then d ∷ rest else rest

abbrev pub selected : MemoryStore → Text → (Dataset → Bool) → List Dataset
selected m ws p = select m ws p (m.by_ws ws)

-- Every wanted tag is among those at hand.
abbrev pub has_all_tags : List Text → List Text → Bool
has_all_tags have want = all (λ w. any (λ h. h == w) have) want

abbrev pub search_text : Dataset → List Text
search_text d = d.name ∷ d.description ∷ join (txt " ") d.tags ∷ []

-- counts[t]++
unfoldable pub count_tag : Text → GoMap Text ℕ → GoMap Text ℕ
count_tag t counts = GoMap.put t (elim (GoMap.get t counts) [ none ↦ 1 | some n ↦ suc n ]) counts

abbrev pub count_tags : List Text → GoMap Text ℕ → GoMap Text ℕ
count_tags [] counts = counts
count_tags (t ∷ ts) counts = count_tags ts (count_tag t counts)

abbrev pub count_all : List Dataset → GoMap Text ℕ → GoMap Text ℕ
count_all [] counts = counts
count_all (d ∷ ds) counts = count_all ds (count_tags d.tags counts)

unfoldable pub tags : MemoryStore → Text → List TagCount
unfolding count_tag
tags m ws =
    sort_stable (λ a b. text_lt a.tag b.tag)
      (map (λ (t, n). record { tag = t; count = n }) (count_all (selected m ws (λ d. true)) []))

module _ ⦃u : Casing⦄ where
  abbrev pub name_less : Dataset → Dataset → Bool
  name_less a b =
      let an = to_lower a.name in
      let bn = to_lower b.name in if not (an == bn) then text_lt an bn else text_lt a.id b.id

  unfoldable pub sort_by_name : List Dataset → List Dataset
  sort_by_name ds = sort_stable name_less ds

  abbrev pub listed : ListFilter → Dataset → Bool
  listed f d =
      matches_all (terms f.query) (search_text d)
      && has_all_tags d.tags f.tags
      && (f.owner == [] || equal_fold d.owner f.owner)

  unfoldable pub list : MemoryStore → Text → ListFilter → Page Dataset
  list m ws f = page (sort_by_name (selected m ws (listed f))) f.limit f.offset

  unfoldable pub containing_location : MemoryStore → Text → Location → List Dataset
  containing_location m ws loc = sort_by_name (
      selected m ws
        (λ d. d.location.backend_id == loc.backend_id && path_contains d.location.path loc.path))

  abbrev pub hit_of : List Text → Dataset → Hit
  hit_of ts d = record {
    type = data_type;
    id = d.id;
    name = d.name;
    description = d.description;
    owner = d.owner;
    source = [];
    name_match = matches_all ts (d.name ∷ []);
  }

  -- `if limit > 0 && len(hits) > limit { hits = hits[:limit] }`
  abbrev pub cut : ℕ → List Hit → List Hit
  cut zero hits = hits
  cut (suc n) hits = take (suc n) hits

  unfoldable pub search : MemoryStore → Text → Text → ℕ → List Hit
  search m ws query limit =
      let ts = terms query in
      cut limit (
        sort_hits
          (map (hit_of ts) (selected m ws (λ d. not (ts == []) && matches_all ts (search_text d)))))
