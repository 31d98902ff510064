-- ===== src/Prelude/Sorting/Insertion.antt =====
-- Inserting a list into a sorted one: which elements matter, and in which order they may come.
use Prim.Native.Nat.{ℕ, zero, suc, ◌≤◌}
use mathlib.Core.Path.{◌≡◌, refl, sym, ap, ◌∙◌}
use mathlib.Core.Logic.{inl, inr}
use mathlib.Core.Bool.{Bool, true, false}
use mathlib.Core.List.{List, [], ◌∷◌, ◌++◌}
use native.Mathlib.Omega.{arith}
use booth_catalog.Prelude.Tests.{Bool-cases}
use booth_catalog.Prelude.Lists.{All, take, drop, length}
use booth_catalog.Prelude.Sorting.{insert_sorted, sort_stable}
use booth_catalog.Prelude.Sorting.Laws.{All-trans, insert_sorted-IsSorted, IsWeakOrder, IsSorted}

module _ {ℓ} {A : Type ℓ} where
  pub take-take : (m n : ℕ) (l : List A) → m ≤ n → take m (take n l) ≡ take m l
  take-take zero n l h = refl
  take-take (suc m) zero l h = elim h [ ]
  take-take (suc m) (suc n) [] h = refl
  take-take (suc m) (suc n) (x ∷ l) h = ap (λ t. x ∷ t) (take-take m n l (omega arith))

  pub take-cons-take : (n : ℕ) (y : A) (l : List A) → take n (y ∷ take n l) ≡ take n (y ∷ l)
  take-cons-take zero y l = refl
  take-cons-take (suc n) y l = ap (λ t. y ∷ t) (take-take n (suc n) l (omega arith))

  pub take-append_of_le : (n : ℕ) (a b : List A) → n ≤ length a → take n (a ++ b) ≡ take n a
  take-append_of_le zero a b h = refl
  take-append_of_le (suc n) [] b h = absurd (omega arith)
  take-append_of_le (suc n) (x ∷ a) b h = ap (λ t. x ∷ t) (take-append_of_le n a b (omega arith))

  pub take-append-drop : (n : ℕ) (xs : List A) → take n xs ++ drop n xs ≡ xs
  take-append-drop zero xs = refl
  take-append-drop (suc n) [] = refl
  take-append-drop (suc n) (x ∷ xs) = ap (λ t. x ∷ t) (take-append-drop n xs)

  pub take_of_le : (n : ℕ) (xs : List A) → length xs ≤ n → take n xs ≡ xs
  take_of_le zero [] h = refl
  take_of_le zero (x ∷ xs) h = absurd (omega arith)
  take_of_le (suc n) [] h = refl
  take_of_le (suc n) (x ∷ xs) h = ap (λ l. x ∷ l) (take_of_le n xs (omega arith))

module _ {ℓ} {A : Type ℓ} (less : A → A → Bool) where
  -- `base` with every element of `xs` inserted, the last one first.
  unfoldable pub insert_all : List A → List A → List A
  insert_all [] base = base
  insert_all (x ∷ xs) base = insert_sorted less x (insert_all xs base)

  pub sort-append :
      (xs ys : List A) → sort_stable less (xs ++ ys) ≡ insert_all xs (sort_stable less ys)
  unfolding sort_stable insert_all
  sort-append [] ys = refl
  sort-append (x ∷ xs) ys = ap (insert_sorted less x) (sort-append xs ys)

  -- Only the first `n` of a list matter to the first `n` after an insertion.
  pub take-insert :
      (n : ℕ) (x : A) (l : List A)
      → take n (insert_sorted less x (take n l)) ≡ take n (insert_sorted less x l)
  unfolding insert_sorted
  take-insert zero x l = refl
  take-insert (suc n) x [] = refl
  take-insert (suc n) x (y ∷ l) = elim (Bool-cases (less y x)) [
    | inl e ↦ rw e (ap (λ t. y ∷ t) (take-insert n x l))
    | inr e ↦ rw e (ap (λ t. x ∷ t) (take-cons-take n y l))
  ]

  pub take-insert_all :
      (n : ℕ) (xs l : List A) → take n (insert_all xs (take n l)) ≡ take n (insert_all xs l)
  unfolding insert_all
  take-insert_all n [] l = take-take n n l (omega arith)
  take-insert_all n (x ∷ xs) l =
      sym (take-insert n x (insert_all xs (take n l)))
      ∙ ap (λ t. take n (insert_sorted less x t)) (take-insert_all n xs l)
      ∙ take-insert n x (insert_all xs l)

  -- Where `q` stands behind `a`, and is not less than `p`, it stands behind one more element after
  -- the insertion of `p`, and the others stand as they would without it.
  pub insert-behind :
      (w : IsWeakOrder less) (p q : A) (a b : List A)
      → less q p ≡ false
      → All (λ z. less z q ≡ false) b
      → (a' : List A) × (insert_sorted less p (a ++ b) ≡ a' ++ b)
        × (insert_sorted less p (a ++ q ∷ b) ≡ a' ++ q ∷ b)
        × (length a' ≡ suc (length a))
  unfolding insert_sorted
  insert-behind w p q [] [] h k = (p ∷ [], refl, rw h, refl)
  insert-behind w p q [] (z ∷ b) h k = (p ∷ [], rw (w.trans p q z h k.0), rw h, refl)
  insert-behind w p q (y ∷ a) b h k = elim (Bool-cases (less y p)) [
    | inl e ↦
        let (a', s, t, l) = insert-behind w p q a b h k in
        (y ∷ a', rw e (ap (λ t. y ∷ t) s), rw e (ap (λ t. y ∷ t) t), ap suc l)
    | inr e ↦ (p ∷ y ∷ a, rw e, rw e, refl)
  ]

  pub insert_all-behind :
      (w : IsWeakOrder less) (ps : List A) (q : A) (a b : List A)
      → All (λ p. less q p ≡ false) ps
      → All (λ z. less z q ≡ false) b
      → (a' : List A) × (insert_all ps (a ++ b) ≡ a' ++ b)
        × (insert_all ps (a ++ q ∷ b) ≡ a' ++ q ∷ b)
        × (length ps ≤ length a')
  unfolding insert_all
  insert_all-behind w [] q a b h k = (a, refl, refl, omega arith)
  insert_all-behind w (p ∷ ps) q a b h k =
      let (c, s, t, l) = insert_all-behind w ps q a b h.1 k in
      let (d, s', t', l') = insert-behind w p q c b h.0 k in
      (d, ap (insert_sorted less p) s ∙ s', ap (insert_sorted less p) t ∙ t', omega arith)

  -- A sorted list opens where an element goes in.
  pub insert-split :
      (q : A) (l : List A)
      → IsWeakOrder less
      → IsSorted less l
      → (a b : List A) × (l ≡ a ++ b)
        × (insert_sorted less q l ≡ a ++ q ∷ b)
        × All (λ z. less z q ≡ false) b
  unfolding insert_sorted
  insert-split q [] w s = ([], [], refl, refl, tt)
  insert-split q (y ∷ l) w s = elim (Bool-cases (less y q)) [
    | inl e ↦
        let (a, b, l_ab, i_ab, h) = insert-split q l w s.1 in
        (y ∷ a, b, ap (λ t. y ∷ t) l_ab, rw e (ap (λ t. y ∷ t) i_ab), h)
    | inr e ↦ ([], y ∷ l, refl, rw e, (e, All-trans less w l e s.0))
  ]

  pub take-insert_all-drop :
      (w : IsWeakOrder less) (n : ℕ) (ps : List A) (q : A) (base : List A)
      → n ≤ length ps
      → All (λ p. less q p ≡ false) ps
      → IsSorted less base
      → take n (insert_all ps (insert_sorted less q base)) ≡ take n (insert_all ps base)
  take-insert_all-drop w n ps q base h k s =
      let (a, b, l_ab, i_ab, hb) = insert-split q base w s in
      let (c, t, t', l) = insert_all-behind w ps q a b k hb in
      ap (λ x. take n (insert_all ps x)) i_ab
      ∙ ap (take n) t'
      ∙ take-append_of_le n c (q ∷ b) (omega arith)
      ∙ sym (take-append_of_le n c b (omega arith))
      ∙ ap (take n) (sym t)
      ∙ ap (λ x. take n (insert_all ps x)) (sym l_ab)

  pub insert-less :
      (x y : A) (l : List A)
      → less y x ≡ true
      → insert_sorted less x (y ∷ l) ≡ y ∷ insert_sorted less x l
  unfolding insert_sorted
  insert-less x y l h = rw h

  pub insert-here :
      (x y : A) (l : List A) → less y x ≡ false → insert_sorted less x (y ∷ l) ≡ x ∷ y ∷ l
  unfolding insert_sorted
  insert-here x y l h = rw h

  -- Two insertions commute where the elements do not tie.
  pub insert_comm :
      (w : IsWeakOrder less) (x y : A) (l : List A)
      → less y x ≡ true
      → insert_sorted less x (insert_sorted less y l)
        ≡ insert_sorted less y (insert_sorted less x l)
  insert_comm w x y [] h = unfold insert_sorted in rw (h, w.asymm y x h)
  insert_comm w x y (z ∷ l) h = elim (Bool-cases (less z x)) [
    | inl e ↦ elim (Bool-cases (less z y)) [
      | inl f ↦ cc (
        insert-less y z l f,
        insert-less x z l e,
        insert-less x z (insert_sorted less y l) e,
        insert-less y z (insert_sorted less x l) f,
        insert_comm w x y l h,
      )
      | inr f ↦ cc (
        insert-here y z l f,
        insert-less x y (z ∷ l) h,
        insert-less x z l e,
        insert-here y z (insert_sorted less x l) f,
      )
    ]
    | inr e ↦
        let f : less z y ≡ false = ground (arith, w.trans x z y e, w.asymm z y) in
        cc (
          insert-here y z l f,
          insert-less x y (z ∷ l) h,
          insert-here x z l e,
          insert-here y x (z ∷ l) (w.asymm y x h),
        )
  ]

  pub insert_all-insert :
      (w : IsWeakOrder less) (x : A) (xs base : List A)
      → insert_all (insert_sorted less x xs) base ≡ insert_sorted less x (insert_all xs base)
  unfolding insert_all insert_sorted
  insert_all-insert w x [] base = refl
  insert_all-insert w x (y ∷ xs) base = elim (Bool-cases (less y x)) [
    | inl e ↦ rw e (
        ap (insert_sorted less y) (insert_all-insert w x xs base)
        ∙ sym (insert_comm w x y (insert_all xs base) e))
    | inr e ↦ rw e
  ]

  pub insert_all-sort :
      (w : IsWeakOrder less) (xs base : List A)
      → insert_all (sort_stable less xs) base ≡ insert_all xs base
  unfolding sort_stable insert_all
  insert_all-sort w [] base = refl
  insert_all-sort w (x ∷ xs) base =
      insert_all-insert w x (sort_stable less xs) base
      ∙ ap (insert_sorted less x) (insert_all-sort w xs base)

  pub insert_all-IsSorted :
      (w : IsWeakOrder less) (xs base : List A)
      → IsSorted less base
      → IsSorted less (insert_all xs base)
  unfolding insert_all
  insert_all-IsSorted w [] base h = h
  insert_all-IsSorted w (x ∷ xs) base h =
      insert_sorted-IsSorted less w x (insert_all xs base) (insert_all-IsSorted w xs base h)

  pub insert_all-append :
      (xs ys base : List A) → insert_all (xs ++ ys) base ≡ insert_all xs (insert_all ys base)
  unfolding insert_all
  insert_all-append [] ys base = refl
  insert_all-append (x ∷ xs) ys base = ap (insert_sorted less x) (insert_all-append xs ys base)

  -- What stands behind `n` sorted elements does not reach the first `n`.
  pub take-insert_all-append :
      (w : IsWeakOrder less) (n : ℕ) (ps qs base : List A)
      → n ≤ length ps
      → All (λ q. All (λ p. less q p ≡ false) ps) qs
      → IsSorted less base
      → take n (insert_all (ps ++ qs) base) ≡ take n (insert_all ps base)
  unfolding insert_all
  take-insert_all-append w n ps qs base h k s =
      ap (take n) (insert_all-append ps qs base) ∙ drop_all qs k
    where
      drop_one :
          (q : A) (qs : List A)
          → All (λ p. less q p ≡ false) ps
          → take n (insert_all ps (insert_sorted less q (insert_all qs base)))
            ≡ take n (insert_all ps (insert_all qs base))
      drop_one q qs k =
          take-insert_all-drop w n ps q (insert_all qs base) h k (insert_all-IsSorted w qs base s)

      drop_all :
          (qs : List A)
          → All (λ q. All (λ p. less q p ≡ false) ps) qs
          → take n (insert_all ps (insert_all qs base)) ≡ take n (insert_all ps base)
      drop_all [] k = refl
      drop_all (q ∷ qs) k = drop_one q qs k.0 ∙ drop_all qs k.1

  pub IsSorted-append :
      (ps qs : List A) → IsSorted less (ps ++ qs) → All (λ q. All (λ p. less q p ≡ false) ps) qs
  IsSorted-append ps [] h = tt
  IsSorted-append ps (q ∷ qs) h = (here ps q qs h, IsSorted-append ps qs (less_one ps q qs h))
    where
      All-mid :
          {x : A} (ps : List A) (q : A) (qs : List A)
          → All (λ y. less y x ≡ false) (ps ++ q ∷ qs)
          → (less q x ≡ false) × All (λ y. less y x ≡ false) (ps ++ qs)
      All-mid [] q qs h = h
      All-mid (p ∷ ps) q qs h = let (a, b) = All-mid ps q qs h.1 in (a, (h.0, b))

      here :
          (ps : List A) (q : A) (qs : List A)
          → IsSorted less (ps ++ q ∷ qs)
          → All (λ p. less q p ≡ false) ps
      here [] q qs h = tt
      here (p ∷ ps) q qs h = ((All-mid ps q qs h.0).0, here ps q qs h.1)

      less_one :
          (ps : List A) (q : A) (qs : List A)
          → IsSorted less (ps ++ q ∷ qs)
          → IsSorted less (ps ++ qs)
      less_one [] q qs h = h.1
      less_one (p ∷ ps) q qs h = ((All-mid ps q qs h.0).1, less_one ps q qs h.1)
