-- ===== src/Search/Laws.antt =====
-- A search over several asset types is the search over all their records at once.
use booth_catalog.Prelude.{
  ℕ, ◌≤◌, ◌≡◌, ◌≢◌, refl, sym, ap, subst, ◌∙◌, ◌↔◌, Bool, true, false, List, [], ◌∷◌, map, arith,
  nat_eq, list_eq, length, take, flatten, ℤ, Option, some,
}
use booth_catalog.Prelude.Sorting.Top.{top, top-flatten}
use booth_catalog.Text.{Text, Casing, trim_space}
use booth_catalog.Asset.Error.{ok}
use booth_catalog.Asset.Matching.{AssetType, terms}
use booth_catalog.Asset.Paging.{clamp_limit}
use booth_catalog.Asset.Paging.Laws.{clamp_limit_bounds}
use booth_catalog.Asset.Hits.{Hit, hit_less, sort_hits}
use booth_catalog.Asset.Hits.Laws.{hit_less-IsWeakOrder}
use booth_catalog.Search.{
  Searcher, max_query_len, max_terms, check_trimmed, check_query, wanted, find_all, merge,
  search_all,
}

-- What a query is once it has been checked.
pub record IsQuery ⦃u : Casing⦄ (raw : Text) (required : Bool) (q : Text) : Type 0 where
  pub trimmed : q ≡ trim_space raw
  pub present : required ≡ true → q ≢ []
  pub fits : length q ≤ max_query_len
  pub few : length (terms q) ≤ max_terms

merge-map :
    (f : AssetType → List Hit) (ts : List AssetType)
    → merge (map (λ t. ok (f t)) ts) ≡ ok (flatten (map f ts))
merge-map f [] = refl
merge-map f (t ∷ ts) = rw (merge-map f ts)

map-map {ℓ κ ι} :
    {A : Type ℓ} {B : Type κ} {C : Type ι} (g : B → C) (f : A → B) (xs : List A)
    → map g (map f xs) ≡ map (λ x. g (f x)) xs
map-map g f [] = refl
map-map g f (x ∷ xs) = ap (λ l. g (f x) ∷ l) (map-map g f xs)

module _ ⦃u : Casing⦄ where
  first_hits :
      (n : ℕ) (full : AssetType → List Hit) (ts : List AssetType)
      → take n (sort_hits (flatten (map (λ t. take n (sort_hits (full t))) ts)))
        ≡ take n (sort_hits (flatten (map full ts)))
  unfolding sort_hits
  first_hits n full ts = sym (
      top-flatten hit_less hit_less-IsWeakOrder n (map full ts)
      ∙ ap (λ l. top hit_less n (flatten l)) (map-map (top hit_less n) full ts))

  -- The first `n` of a type's matching records in the order of results, as each catalog answers.
  pub record IsTopOf (src : Searcher) (full : Text → Text → List Hit) : Type 0 where
    pub answers :
        (ws query : Text) (n : ℕ) → 1 ≤ n → src ws query n ≡ ok (take n (sort_hits (full ws query)))

  module _ (sources : AssetType → Option Searcher) (full : AssetType → Text → Text → List Hit)
      (registered : (t : AssetType)
        → (src : Searcher) × (sources t ≡ some src) × IsTopOf src (full t)) where
    abbrev found : Text → Text → ℕ → AssetType → List Hit
    found ws query n t = take n (sort_hits (full t ws query))

    find_all-eq :
        (ws query : Text) (n : ℕ) (ts : List AssetType)
        → 1 ≤ n
        → find_all sources ws query n ts ≡ ok (map (λ t. ok (found ws query n t)) ts)
    unfolding find_all
    find_all-eq ws query n [] h = refl
    find_all-eq ws query n (t ∷ ts) h =
        let (src, known, is) = registered t in
        rw (known, find_all) (rw (find_all-eq ws query n ts h, is.answers ws query n h))

    -- If each type answers with the first records of its own matches, then the answer holds the
    -- first `limit` of all matches of the types asked for: nothing that belongs there is missing.
    pub search_all-eq-top :
        (ws raw query : Text) (asked : List AssetType) (limit : ℤ)
        → check_query raw true ≡ ok query
        → search_all sources ws raw asked limit
          ≡ ok (record {
            query = query;
            hits =
                take
                  (clamp_limit limit)
                  (sort_hits (flatten (map (λ t. full t ws query) (wanted asked))));
          })
    unfolding search_all
    search_all-eq-top ws raw query asked limit h =
        let n = clamp_limit limit in
        rw (h, find_all-eq ws query n (wanted asked) (clamp_limit_bounds limit).0)
          (rw (merge-map (found ws query n) (wanted asked)) (
            ap (λ hits. ok (record { query = query; hits = hits }))
              (first_hits n (λ t. full t ws query) (wanted asked))))

module _ ⦃u : Casing⦄ where
  terms_nil : length (terms []) ≤ max_terms
  unfolding terms
  terms_nil = omega arith

  check_trimmed_sound :
      (raw s : Text) (required : Bool) (q : Text)
      → s ≡ trim_space raw
      → check_trimmed s required ≡ ok q
      → IsQuery raw required q
  check_trimmed_sound raw [] required q e h =
      let blank : [] ≡ q = ground arith in
      subst (IsQuery raw required) blank
        (record { trimmed = e; present = λ r. ground arith; fits = omega arith; few = terms_nil })
  check_trimmed_sound raw (c ∷ cs) required q e h =
      let same : c ∷ cs ≡ q = ground arith in
      subst (IsQuery raw required) same
        (record { trimmed = e; present = λ r. cc; fits = ground arith; few = ground arith })

  check_trimmed_complete :
      (s : Text) (required : Bool)
      → (required ≡ true → s ≢ [])
      → length s ≤ max_query_len
      → length (terms s) ≤ max_terms
      → check_trimmed s required ≡ ok s
  check_trimmed_complete [] true p f t = absurd (p refl refl)
  check_trimmed_complete [] false p f t = refl
  check_trimmed_complete (c ∷ cs) required p f t = ground arith

  -- A query is accepted exactly if, trimmed, it is there where required, and short: at most 200
  -- characters and 10 words. What is searched for is the trimmed query.
  pub check_query_iff :
      (raw : Text) (required : Bool) (q : Text)
      → (check_query raw required ≡ ok q) ↔ IsQuery raw required q
  unfolding check_query
  check_query_iff raw required q = (
    check_trimmed_sound raw (trim_space raw) required q refl,
    λ is. rw (← is.trimmed) (check_trimmed_complete q required is.present is.fits is.few),
  )
