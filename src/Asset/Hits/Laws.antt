-- ===== src/Asset/Hits/Laws.antt =====
-- The order of search results.
use mathlib.Core.List.{Perm}
use mathlib.Core.Path.{fun_ext}
use booth_catalog.Prelude.{
  ◌≡◌, sym, subst, Bool, not, ◌&&◌, arith, eq_iff, nat_eq, bool_eq, list_eq, List, by_key,
}
use booth_catalog.Prelude.Sorting.Laws.{
  IsWeakOrder, IsTotalOrder, by_key-IsWeakOrder, IsSorted, sort_stable-IsSorted, sort_stable-perm,
}
use booth_catalog.Text.{text_lt, Casing, to_lower}
use booth_catalog.Text.Order.{text_lt-IsTotalOrder}
use booth_catalog.Asset.Matching.{AssetType, asset_type_eq}
use booth_catalog.Asset.Hits.{Hit, type_text, hit_less, sort_hits}

-- `true` before `false`.
abbrev true_first : Bool → Bool → Bool
true_first a b = a && not b

true_first-IsTotalOrder : IsTotalOrder true_first
true_first-IsTotalOrder = record {
  weak = record { asymm = λ a b h. ground arith; trans = λ a b c h k. ground arith };
  total = λ a b h k. ground arith;
}

abbrev type_lt : AssetType → AssetType → Bool
type_lt a b = text_lt (type_text a) (type_text b)

type_text_injective : (a b : AssetType) → type_text a ≡ type_text b → a ≡ b
type_text_injective a b h = ground arith

type_lt-IsTotalOrder : IsTotalOrder type_lt
type_lt-IsTotalOrder =
    let t = text_lt-IsTotalOrder in
    record {
      weak = record {
        asymm = λ a b. t.weak.asymm (type_text a) (type_text b);
        trans = λ a b c. t.weak.trans (type_text a) (type_text b) (type_text c);
      };
      total = λ a b h k. type_text_injective a b (t.total (type_text a) (type_text b) h k);
    }

by_id-IsWeakOrder : IsWeakOrder (λ (a b : Hit). text_lt a.id b.id)
by_id-IsWeakOrder =
    let t = text_lt-IsTotalOrder in
    record { asymm = λ a b. t.weak.asymm a.id b.id; trans = λ a b c. t.weak.trans a.id b.id c.id }

module _ ⦃u : Casing⦄ where
  abbrev by_type : Hit → Hit → Bool
  by_type = by_key (λ a. a.type) type_lt (λ a b. text_lt a.id b.id)

  abbrev by_name : Hit → Hit → Bool
  by_name = by_key (λ a. to_lower a.name) text_lt by_type

  abbrev by_match : Hit → Hit → Bool
  by_match = by_key (λ a. a.name_match) true_first by_name

  by_match-IsWeakOrder : IsWeakOrder by_match
  by_match-IsWeakOrder =
      by_key-IsWeakOrder (λ a. a.name_match) true_first by_name true_first-IsTotalOrder
        (by_key-IsWeakOrder (λ a. to_lower a.name) text_lt by_type text_lt-IsTotalOrder
          (by_key-IsWeakOrder (λ a. a.type) type_lt (λ a b. text_lt a.id b.id) type_lt-IsTotalOrder
            by_id-IsWeakOrder))

  hit_less-eq-by_match : (a b : Hit) → hit_less a b ≡ by_match a b
  unfolding hit_less
  hit_less-eq-by_match a b = ground (arith, eq_iff a.name_match b.name_match)

  -- `SortHits` sorts by an order: a strict one, whose ties are an equivalence.
  pub hit_less-IsWeakOrder : IsWeakOrder hit_less
  hit_less-IsWeakOrder =
      subst IsWeakOrder (sym (fun_ext (λ a. fun_ext (hit_less-eq-by_match a)))) by_match-IsWeakOrder

  -- Search results are a rearrangement of the hits in which none precedes one that is less.
  pub sort_hits-IsSorted :
      (hits : List Hit) → IsSorted hit_less (sort_hits hits) × Perm (sort_hits hits) hits
  unfolding sort_hits
  sort_hits-IsSorted hits =
      (sort_stable-IsSorted hit_less hit_less-IsWeakOrder hits, sort_stable-perm hit_less hits)
