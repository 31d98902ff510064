-- ===== src/Prelude/Sorting/Laws.antt =====
-- Orders, and what sorting by one gives.
use mathlib.Core.List.{Perm}
use mathlib.Core.List.Perm
use mathlib.Core.Path.{◌≡◌, refl}
use mathlib.Core.Logic.{inl, inr}
use mathlib.Core.Bool.{Bool, true, false, ◌||◌}
use mathlib.Core.List.{List, [], ◌∷◌}
use native.Mathlib.Omega.{arith}
use booth_catalog.Prelude.Tests.{Eq, Bool-cases, eq_iff}
use booth_catalog.Prelude.Lists.{All, any}
use booth_catalog.Prelude.Sorting.{insert_sorted, sort_stable, by_key}

-- A strict order whose ties are an equivalence: what `sort` asks of `less`.
pub record IsWeakOrder {ℓ} {A : Type ℓ} (less : A → A → Bool) : Type ℓ where
  pub asymm : (a b : A) → less a b ≡ true → less b a ≡ false
  pub trans : (a b c : A) → less b a ≡ false → less c b ≡ false → less c a ≡ false

-- A strict order without ties.
pub record IsTotalOrder {ℓ} {A : Type ℓ} (less : A → A → Bool) : Type ℓ where
  pub weak : IsWeakOrder less
  pub total : (a b : A) → less a b ≡ false → less b a ≡ false → a ≡ b

-- An order by a key and then by another order is an order.
pub by_key-IsWeakOrder {ℓ κ} :
    {A : Type ℓ} {K : Type κ} ⦃e : Eq K⦄ (key : A → K) (lt : K → K → Bool) (rest : A → A → Bool)
    → IsTotalOrder lt
    → IsWeakOrder rest
    → IsWeakOrder (by_key key lt rest)
by_key-IsWeakOrder key lt rest t w = record {
  asymm = λ a b h. ground (
    arith,
    eq_iff (key a) (key b),
    eq_iff (key b) (key a),
    t.weak.asymm (key a) (key b),
    w.asymm a b,
  );
  trans = λ a b c h k. ground (
    arith,
    eq_iff (key a) (key b),
    eq_iff (key b) (key a),
    eq_iff (key c) (key b),
    eq_iff (key c) (key a),
    t.weak.trans (key a) (key b) (key c),
    t.total (key a) (key b),
    t.weak.asymm (key b) (key a),
    t.weak.asymm (key c) (key b),
    t.total (key b) (key c),
    w.trans a b c,
  );
}

module _ {ℓ} {A : Type ℓ} (less : A → A → Bool) where
  -- No element is less than one before it.
  abbrev pub IsSorted : List A → Type ℓ
  IsSorted [] = Unit
  IsSorted (x ∷ xs) = All (λ y. less y x ≡ false) xs × IsSorted xs

  module _ (w : IsWeakOrder less) where
    pub All-trans :
        {x y : A} (xs : List A)
        → less y x ≡ false
        → All (λ z. less z y ≡ false) xs
        → All (λ z. less z x ≡ false) xs
    All-trans [] h k = tt
    All-trans {x} {y} (z ∷ zs) h k = (w.trans x y z h k.0, All-trans zs h k.1)

    All-insert {κ} :
        (P : A → Type κ) (x : A) (xs : List A) → P x → All P xs → All P (insert_sorted less x xs)
    unfolding insert_sorted
    All-insert P x [] p h = (p, tt)
    All-insert P x (y ∷ ys) p h = elim (Bool-cases (less y x)) [
      | inl e ↦ rw e (h.0, All-insert P x ys p h.1)
      | inr e ↦ rw e (p, h)
    ]

    pub insert_sorted-IsSorted :
        (x : A) (xs : List A) → IsSorted xs → IsSorted (insert_sorted less x xs)
    unfolding insert_sorted
    insert_sorted-IsSorted x [] h = (tt, tt)
    insert_sorted-IsSorted x (y ∷ ys) h = elim (Bool-cases (less y x)) [
      | inl e ↦ rw e (
        All-insert (λ z. less z y ≡ false) x ys (w.asymm y x e) h.0,
        insert_sorted-IsSorted x ys h.1,
      )
      | inr e ↦ rw e ((e, All-trans ys e h.0), h)
    ]

    pub sort_stable-IsSorted : (xs : List A) → IsSorted (sort_stable less xs)
    unfolding sort_stable
    sort_stable-IsSorted [] = tt
    sort_stable-IsSorted (x ∷ xs) =
        insert_sorted-IsSorted x (sort_stable less xs) (sort_stable-IsSorted xs)

    insert_of_le : (x : A) (xs : List A) → IsSorted (x ∷ xs) → insert_sorted less x xs ≡ x ∷ xs
    unfolding insert_sorted
    insert_of_le x [] h = refl
    insert_of_le x (y ∷ ys) h = rw h.0.0

    -- Sorting a sorted list changes nothing.
    pub sort_stable_of_IsSorted : (xs : List A) → IsSorted xs → sort_stable less xs ≡ xs
    unfolding sort_stable
    sort_stable_of_IsSorted [] h = refl
    sort_stable_of_IsSorted (x ∷ xs) h = rw (sort_stable_of_IsSorted xs h.1) (insert_of_le x xs h)

  insert_sorted-perm : (x : A) (xs : List A) → Perm (insert_sorted less x xs) (x ∷ xs)
  unfolding insert_sorted
  insert_sorted-perm x [] = Perm.refl _
  insert_sorted-perm x (y ∷ ys) = elim (Bool-cases (less y x)) [
    | inl e ↦ rw e (Perm.trans (Perm.cons y (insert_sorted-perm x ys)) (Perm.swap x y ys))
    | inr e ↦ rw e (Perm.refl _)
  ]

  pub sort_stable-perm : (xs : List A) → Perm (sort_stable less xs) xs
  unfolding sort_stable
  sort_stable-perm [] = Perm.refl _
  sort_stable-perm (x ∷ xs) =
      Perm.trans (insert_sorted-perm x (sort_stable less xs)) (Perm.cons x (sort_stable-perm xs))

  any-insert_sorted :
      (p : A → Bool) (x : A) (xs : List A) → any p (insert_sorted less x xs) ≡ (p x || any p xs)
  unfolding insert_sorted
  any-insert_sorted p x [] = refl
  any-insert_sorted p x (y ∷ ys) = ground (arith, any-insert_sorted p x ys)

  pub any-sort_stable : (p : A → Bool) (xs : List A) → any p (sort_stable less xs) ≡ any p xs
  unfolding sort_stable
  any-sort_stable p [] = refl
  any-sort_stable p (x ∷ xs) =
      ground (arith, any-insert_sorted p x (sort_stable less xs), any-sort_stable p xs)
