-- ===== src/Prelude/Sorting.antt =====
-- Go's `sort.SliceStable` over a `less` function, as insertion: an element goes behind those that
-- are less than it, so that elements that tie keep their order.
pub mod Laws
pub mod Insertion
pub mod Top
use mathlib.Core.Path.{◌≡◌}
use mathlib.Core.Bool.{Bool, true, false, not}
use mathlib.Core.List.{List, [], ◌∷◌}
use booth_catalog.Prelude.Tests.{if◌then◌else◌, Eq, ◌==◌}

module _ {ℓ} {A : Type ℓ} (less : A → A → Bool) where
  unfoldable pub insert_sorted : A → List A → List A
  insert_sorted x [] = x ∷ []
  insert_sorted x (y ∷ ys) =
      let later = y ∷ insert_sorted x ys in if less y x then later else x ∷ y ∷ ys

  unfoldable pub sort_stable : List A → List A
  unfolding insert_sorted
  sort_stable [] = []
  sort_stable (x ∷ xs) = insert_sorted x (sort_stable xs)

-- `if key(a) != key(b) { return key(a) < key(b) }; return rest(a, b)`
abbrev pub by_key {ℓ κ} :
    {A : Type ℓ} {K : Type κ} ⦃e : Eq K⦄ → (A → K) → (K → K → Bool) → (A → A → Bool) → A → A → Bool
by_key key lt rest a b = if not (key a == key b) then lt (key a) (key b) else rest a b
