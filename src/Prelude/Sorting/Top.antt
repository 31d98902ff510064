-- ===== src/Prelude/Sorting/Top.antt =====
-- The first `n` of a sorted concatenation need only the first `n` of each part.
use Prim.Native.Nat.{ℕ, zero, suc, ◌≤◌}
use mathlib.Core.Path.{◌≡◌, refl, sym, ap, ◌∙◌, ◌≡⟨◌⟩◌, ◌∎}
use mathlib.Core.Bool.{Bool, false}
use mathlib.Core.List.{List, [], ◌∷◌, ◌++◌, map}
use native.Mathlib.Decide.{dec_le}
use native.Mathlib.Omega.{arith}
use booth_catalog.Prelude.Lists.{All, take, drop, length, flatten}
use booth_catalog.Prelude.Sorting.{sort_stable}
use booth_catalog.Prelude.Sorting.Insertion.{
  take-take, take-append-drop, take_of_le, insert_all, sort-append, take-insert_all,
  insert_all-sort, take-insert_all-append, IsSorted-append,
}
use booth_catalog.Prelude.Sorting.Laws.{
  IsWeakOrder, IsSorted, sort_stable-IsSorted, sort_stable_of_IsSorted,
}

module _ {ℓ} {A : Type ℓ} (less : A → A → Bool) where
  take-length : (n : ℕ) (l : List A) → n ≤ length l → length (take n l) ≡ n
  take-length zero l h = refl
  take-length (suc n) [] h = absurd (omega arith)
  take-length (suc n) (x ∷ l) h = ap suc (take-length n l (omega arith))

  -- Of a sorted list only the first `n` matter to the first `n`.
  take-insert_all-take :
      (w : IsWeakOrder less) (n : ℕ) (xs base : List A)
      → IsSorted less xs
      → IsSorted less base
      → take n (insert_all less xs base) ≡ take n (insert_all less (take n xs) base)
  take-insert_all-take w n xs base h s = elim (dec_le n (length xs)) [
    | yes p ↦
        let split : take n xs ++ drop n xs ≡ xs = take-append-drop n xs in
        ap (λ l. take n (insert_all less l base)) (sym split)
        ∙ take-insert_all-append less w n (take n xs) (drop n xs) base
            (omega (arith, take-length n xs p))
            (IsSorted-append less (take n xs) (drop n xs) (rw split h)) s
    | no p ↦ ap (λ l. take n (insert_all less l base)) (sym (take_of_le n xs (omega arith)))
  ]

  -- The first `n` of the list in order.
  abbrev pub top : ℕ → List A → List A
  top n l = take n (sort_stable less l)

  module _ (w : IsWeakOrder less) where
    All-take :
        (x : A) (n : ℕ) (l : List A)
        → All (λ y. less y x ≡ false) l
        → All (λ y. less y x ≡ false) (take n l)
    All-take x zero l h = tt
    All-take x (suc n) [] h = tt
    All-take x (suc n) (y ∷ l) h = (h.0, All-take x n l h.1)

    pub IsSorted-take : (n : ℕ) (l : List A) → IsSorted less l → IsSorted less (take n l)
    IsSorted-take zero l h = tt
    IsSorted-take (suc n) [] h = tt
    IsSorted-take (suc n) (x ∷ l) h = (All-take x n l h.0, IsSorted-take n l h.1)

    IsSorted-top : (n : ℕ) (l : List A) → IsSorted less (top n l)
    IsSorted-top n l = IsSorted-take n (sort_stable less l) (sort_stable-IsSorted less w l)

    pub top-append : (n : ℕ) (xs ys : List A) → top n (xs ++ ys) ≡ top n (top n xs ++ top n ys)
    top-append n xs ys =
        let sx = sort_stable-IsSorted less w xs in
        let sy = sort_stable-IsSorted less w ys in
        top n (xs ++ ys)
        ≡⟨ ap (take n) (sort-append less xs ys) ⟩ take n (insert_all less xs (sort_stable less ys))
        ≡⟨ ap (take n) (sym (insert_all-sort less w xs _)) ⟩
          take n (insert_all less (sort_stable less xs) (sort_stable less ys))
        ≡⟨ take-insert_all-take w n (sort_stable less xs) (sort_stable less ys) sx sy ⟩
          take n (insert_all less (top n xs) (sort_stable less ys))
        ≡⟨ sym (take-insert_all less n (top n xs) (sort_stable less ys)) ⟩
          take n (insert_all less (top n xs) (top n ys))
        ≡⟨ ap (λ l. take n (insert_all less (top n xs) l))
            (sym (sort_stable_of_IsSorted less w (top n ys) (IsSorted-top n ys))) ⟩
          take n (insert_all less (top n xs) (sort_stable less (top n ys)))
        ≡⟨ ap (take n) (sym (sort-append less (top n xs) (top n ys))) ⟩
          top n (top n xs ++ top n ys) ∎

    pub top-top : (n : ℕ) (l : List A) → top n (top n l) ≡ top n l
    top-top n l =
        ap (take n) (sort_stable_of_IsSorted less w (top n l) (IsSorted-top n l))
        ∙ take-take n n (sort_stable less l) (omega arith)

    -- The first `n` of a concatenation are the first `n` of the concatenated first `n`s.
    pub top-flatten :
        (n : ℕ) (ls : List (List A)) → top n (flatten ls) ≡ top n (flatten (map (top n) ls))
    top-flatten n [] = refl
    top-flatten n (l ∷ ls) =
        top-append n l (flatten ls)
        ∙ ap (λ t. top n (top n l ++ t)) (top-flatten n ls)
        ∙ ap (λ t. top n (t ++ top n (flatten (map (top n) ls)))) (sym (top-top n l))
        ∙ sym (top-append n (top n l) (flatten (map (top n) ls)))
