-- ===== src/Asset/Paging/Laws.antt =====
-- The pages of a listing.
use booth_catalog.Prelude.{
  ℕ, zero, suc, ◌+◌, ◌-◌, ◌*◌, ◌≤◌, ◌≡◌, refl, sym, ap, ◌∙◌, inl, inr, List, [], ◌∷◌, ◌++◌, arith,
  Bool-cases, ℤ, pos, negsuc, length, take, drop, ltb,
}
use native.Mathlib.Nat.{zero-add, zero-mul}
use Prim.Native.Nat.add
use booth_catalog.Asset.Paging.{page, slice, page_start, page_end, clamp_limit, max_limit}

-- `ClampLimit` gives a page size between 1 and 200.
pub clamp_limit_bounds : (n : ℤ) → (1 ≤ clamp_limit n) × (clamp_limit n ≤ max_limit)
unfolding clamp_limit
clamp_limit_bounds (negsuc n) = (omega arith, omega arith)
clamp_limit_bounds (pos zero) = (omega arith, omega arith)
clamp_limit_bounds (pos (suc n)) = ground arith

module _ {ℓ} {A : Type ℓ} where
  take-nil : (n : ℕ) → take {A = A} n [] ≡ []
  take-nil zero = refl
  take-nil (suc n) = refl

  take-add : (a b : ℕ) (xs : List A) → take (a + b) xs ≡ take a xs ++ take b (drop a xs)
  take-add zero b xs = rw zero-add
  take-add (suc a) b [] = rw add.suc (sym (take-nil b))
  take-add (suc a) b (x ∷ xs) = rw add.suc (ap (λ l. x ∷ l) (take-add a b xs))

  take_of_le : (n : ℕ) (xs : List A) → length xs ≤ n → take n xs ≡ xs
  take_of_le zero [] h = refl
  take_of_le zero (x ∷ xs) h = absurd (omega arith)
  take_of_le (suc n) [] h = refl
  take_of_le (suc n) (x ∷ xs) h = ap (λ l. x ∷ l) (take_of_le n xs (omega arith))

  drop_of_le : (n : ℕ) (xs : List A) → length xs ≤ n → drop n xs ≡ []
  drop_of_le zero [] h = refl
  drop_of_le zero (x ∷ xs) h = absurd (omega arith)
  drop_of_le (suc n) [] h = refl
  drop_of_le (suc n) (x ∷ xs) h = drop_of_le n xs (omega arith)

  length-drop : (n : ℕ) (xs : List A) → length (drop n xs) ≡ length xs - n
  length-drop zero xs = omega arith
  length-drop (suc n) [] = omega arith
  length-drop (suc n) (x ∷ xs) = omega (arith, length-drop n xs)

  slice-eq-take :
      (m : List A) (limit n : ℕ)
      → slice m
          (page_start (pos n) (length m))
          (page_end (page_start (pos n) (length m)) limit (length m))
        ≡ take limit (drop n m)
  unfolding page_start page_end
  slice-eq-take m limit n = elim (Bool-cases (ltb (length m) n)) [
    | inl e ↦
        let past : length m ≤ n = ground arith in
        rw (e, drop_of_le n m past, drop_of_le (length m) m (omega arith), take-nil, take-nil)
    | inr e ↦ rw e (elim (Bool-cases (ltb (length m) (n + limit))) [
      | inl f ↦
          let short : length (drop n m) ≤ limit = ground (arith, length-drop n m) in
          let exact : length (drop n m) ≤ length m - n = omega (arith, length-drop n m) in
          rw (f, take_of_le (length m - n) (drop n m) exact, take_of_le limit (drop n m) short)
      | inr f ↦ let same : n + limit - n ≡ limit = omega arith in rw (f, same)
    ])
  ]

  -- A page is the next `limit` rows of the listing from its offset.
  items-page :
      (m : List A) (limit : ℤ) (n : ℕ)
      → (page m limit (pos n)).items ≡ take (clamp_limit limit) (drop n m)
  unfolding page
  items-page m limit n = slice-eq-take m (clamp_limit limit) n

  -- The rows of the first `n` pages, as a client that follows the offsets reads them.
  unfoldable pub first_pages : ℕ → ℤ → List A → List A
  first_pages zero limit m = []
  first_pages (suc n) limit m =
      first_pages n limit m ++ (page m limit (pos (n * clamp_limit limit))).items

  -- The first `n` pages are the first `n * limit` rows of the listing: no row is skipped or shown
  -- twice, whatever page size is asked for.
  pub first_pages-eq-take :
      (n : ℕ) (limit : ℤ) (m : List A) → first_pages n limit m ≡ take (n * clamp_limit limit) m
  unfolding first_pages
  first_pages-eq-take zero limit m = rw zero-mul
  first_pages-eq-take (suc n) limit m =
      let size : suc n * clamp_limit limit ≡ n * clamp_limit limit + clamp_limit limit =
        grind arith in
      rw (first_pages-eq-take n limit m, items-page, size)
        (sym (take-add (n * clamp_limit limit) (clamp_limit limit) m))

  -- Enough pages are the whole listing.
  pub first_pages_all :
      (n : ℕ) (limit : ℤ) (m : List A)
      → length m ≤ n * clamp_limit limit
      → first_pages n limit m ≡ m
  first_pages_all n limit m h =
      first_pages-eq-take n limit m ∙ take_of_le (n * clamp_limit limit) m h
