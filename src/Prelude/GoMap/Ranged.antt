-- ===== src/Prelude/GoMap/Ranged.antt =====
-- What a `range` over a map collects, where every entry has a key of its own and the key of its value.
use mathlib.Core.Path.{◌≡◌, refl, subst}
use mathlib.Core.Logic.{inl, inr}
use mathlib.Core.Bool.{Bool, false}
use mathlib.Core.Option.{some}
use mathlib.Core.List.{List, [], ◌∷◌}
use native.Mathlib.Omega.{arith}
use booth_catalog.Prelude.Tests.{Eq, ◌==◌, eq_iff, if◌then◌else◌, Bool-cases}
use booth_catalog.Prelude.Lists.{any}
use booth_catalog.Prelude.GoMap.{GoMap, get}
use booth_catalog.Prelude.GoMap.Laws.{HasDistinctKeys, IsFresh, get_of_IsFresh}

module _ {ℓ κ} {K : Type ℓ} {V : Type κ} ⦃e : Eq K⦄ where
  -- The values of the entries with a property.
  unfoldable pub ranged : (K → V → Bool) → GoMap K V → List V
  ranged p [] = []
  ranged p ((k, v) ∷ m) = let rest = ranged p m in if p k v then v ∷ rest else rest

  module _ (key : V → K) where
    abbrev pub IsKeyed : GoMap K V → Type (ℓ ⊔ κ)
    IsKeyed m = (k : K) (v : V) → get k m ≡ some v → key v ≡ k

    IsKeyed-tail : (k : K) (v : V) (m : GoMap K V) → IsFresh k m → IsKeyed ((k, v) ∷ m) → IsKeyed m
    unfolding get
    IsKeyed-tail k v m fresh keyed j w h =
        keyed j w (ground (arith, e.beq_iff k j, get_of_IsFresh k m fresh))

    IsKeyed-head : (k : K) (v : V) (m : GoMap K V) → IsKeyed ((k, v) ∷ m) → key v ≡ k
    unfolding get
    IsKeyed-head k v m keyed = keyed k v (ground (arith, e.beq_iff k k))

    any-ranged_of_IsFresh :
        (p : K → V → Bool) (k : K) (m : GoMap K V)
        → HasDistinctKeys m
        → IsKeyed m
        → IsFresh k m
        → any (λ v. key v == k) (ranged p m) ≡ false
    unfolding ranged
    any-ranged_of_IsFresh p k [] h keyed fresh = refl
    any-ranged_of_IsFresh p k ((j, w) ∷ m) h keyed fresh = ground (
      arith,
      e.beq_iff (key w) k,
      IsKeyed-head j w m keyed,
      any-ranged_of_IsFresh p k m h.1 (IsKeyed-tail j w m h.0 keyed) fresh.1,
      fresh.0,
    )

    -- The value under a key is collected exactly where it has the property.
    pub any-ranged :
        (p : K → V → Bool) (k : K) (v : V) (m : GoMap K V)
        → HasDistinctKeys m
        → IsKeyed m
        → get k m ≡ some v
        → any (λ x. key x == k) (ranged p m) ≡ p k v
    unfolding ranged get
    any-ranged p k v [] h keyed g = absurd (ground arith)
    any-ranged p k v ((j, w) ∷ m) h keyed g = elim (Bool-cases (j == k)) [
      | inl q ↦
          let same = (eq_iff j k).0 q in
          let rest =
            any-ranged_of_IsFresh p k m h.1 (IsKeyed-tail j w m h.0 keyed)
              (subst (λ x. IsFresh x m) same h.0) in
          ground (arith, same, rest, e.beq_iff (key w) k, IsKeyed-head j w m keyed)
      | inr q ↦ ground (
        arith,
        e.beq_iff (key w) k,
        e.beq_iff j k,
        IsKeyed-head j w m keyed,
        any-ranged p k v m h.1 (IsKeyed-tail j w m h.0 keyed) (ground arith),
      )
    ]
