-- ===== src/Prelude/GoMap/Laws.antt =====
-- Reading a map after a write, and what `range` meets.
use mathlib.Core.Path.{◌≡◌, refl, sym, subst, ◌∙◌}
use mathlib.Core.Logic.{◌≢◌, inl, inr}
use mathlib.Core.Bool.{Bool, true, false, false≢true}
use mathlib.Core.Option.{none, some}
use mathlib.Core.List.{[], ◌∷◌}
use native.Mathlib.Omega.{arith}
use booth_catalog.Prelude.Tests.{Eq, ◌==◌, eq_iff, if◌then◌else◌, Bool-cases}
use booth_catalog.Prelude.GoMap.{GoMap, get, put, delete, find}

module _ {ℓ κ} {K : Type ℓ} {V : Type κ} ⦃e : Eq K⦄ where
  pub get-put :
      (k j : K) (v : V) (m : GoMap K V) → get j (put k v m) ≡ (if k == j then some v else get j m)
  unfolding get put
  get-put k j v [] = refl
  get-put k j v ((i, w) ∷ m) =
      ground (arith, e.beq_iff k j, e.beq_iff i k, e.beq_iff i j, get-put k j v m)

  pub get-delete :
      (k j : K) (m : GoMap K V) → get j (delete k m) ≡ (if k == j then none else get j m)
  unfolding get delete
  get-delete k j [] = ground arith
  get-delete k j ((i, w) ∷ m) =
      ground (arith, e.beq_iff k j, e.beq_iff i k, e.beq_iff i j, get-delete k j m)

  -- No key stands before an entry of the same key: true of every map that writes have built.
  abbrev pub IsFresh : K → GoMap K V → Type ℓ
  IsFresh k [] = Unit
  IsFresh k ((j, w) ∷ m) = (j ≢ k) × IsFresh k m

  abbrev pub HasDistinctKeys : GoMap K V → Type ℓ
  HasDistinctKeys [] = Unit
  HasDistinctKeys ((j, w) ∷ m) = IsFresh j m × HasDistinctKeys m

  IsFresh-put : (k j : K) (v : V) (m : GoMap K V) → k ≢ j → IsFresh j m → IsFresh j (put k v m)
  unfolding put
  IsFresh-put k j v [] h f = (h, tt)
  IsFresh-put k j v ((i, w) ∷ m) h f = elim (Bool-cases (i == k)) [
    | inl p ↦ rw p (h, f.1)
    | inr p ↦ rw p (f.0, IsFresh-put k j v m h f.1)
  ]

  pub HasDistinctKeys-put :
      (k : K) (v : V) (m : GoMap K V) → HasDistinctKeys m → HasDistinctKeys (put k v m)
  unfolding put
  HasDistinctKeys-put k v [] h = (tt, tt)
  HasDistinctKeys-put k v ((i, w) ∷ m) h = elim (Bool-cases (i == k)) [
    | inl p ↦ rw p (subst (λ x. IsFresh x m) ((eq_iff i k).0 p) h.0, h.1)
    | inr p ↦ rw p (
      IsFresh-put k i v m (λ q. false≢true (sym p ∙ (eq_iff i k).1 (sym q))) h.0,
      HasDistinctKeys-put k v m h.1,
    )
  ]

  IsFresh-delete : (k j : K) (m : GoMap K V) → IsFresh j m → IsFresh j (delete k m)
  unfolding delete
  IsFresh-delete k j [] f = tt
  IsFresh-delete k j ((i, w) ∷ m) f = elim (Bool-cases (i == k)) [
    | inl p ↦ rw p (IsFresh-delete k j m f.1)
    | inr p ↦ rw p (f.0, IsFresh-delete k j m f.1)
  ]

  pub HasDistinctKeys-delete :
      (k : K) (m : GoMap K V) → HasDistinctKeys m → HasDistinctKeys (delete k m)
  unfolding delete
  HasDistinctKeys-delete k [] h = tt
  HasDistinctKeys-delete k ((i, w) ∷ m) h = elim (Bool-cases (i == k)) [
    | inl p ↦ rw p (HasDistinctKeys-delete k m h.1)
    | inr p ↦ rw p (IsFresh-delete k i m h.0, HasDistinctKeys-delete k m h.1)
  ]

  pub get_of_IsFresh : (k : K) (m : GoMap K V) → IsFresh k m → get k m ≡ none
  unfolding get
  get_of_IsFresh k [] f = refl
  get_of_IsFresh k ((i, w) ∷ m) f = ground (arith, e.beq_iff i k, get_of_IsFresh k m f.1, f.0)

  -- What `find` meets is in the map and has the property.
  pub find_sound :
      (p : K → V → Bool) (m : GoMap K V) (k : K) (v : V)
      → HasDistinctKeys m
      → find p m ≡ some (k, v)
      → (get k m ≡ some v) × (p k v ≡ true)
  unfolding find get
  find_sound p [] k v h f = cc
  find_sound p ((i, w) ∷ m) k v h f = elim (Bool-cases (p i w)) [
    | inl q ↦ ground (arith, e.beq_iff i k)
    | inr q ↦
        let (g, holds) = find_sound p m k v h.1 (ground arith) in
        ground (arith, e.beq_iff i k, get_of_IsFresh i m h.0)
  ]

  -- Where `find` meets nothing, nothing in the map has the property.
  pub find_complete :
      (p : K → V → Bool) (m : GoMap K V) (k : K) (v : V)
      → find p m ≡ none
      → get k m ≡ some v
      → p k v ≡ false
  unfolding find get
  find_complete p [] k v f g = cc
  find_complete p ((i, w) ∷ m) k v f g = ground (arith, e.beq_iff i k, find_complete p m k v)
