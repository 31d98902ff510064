-- ===== src/Text/Split.antt =====
-- Splitting at a character and joining again.
use booth_catalog.Prelude.{
  ℕ, ◌≡◌, refl, sym, ap, ◌∙◌, ◌⊎◌, inl, inr, true, List, [], ◌∷◌, ◌++◌, arith, ◌==◌, eq_refl,
  eq_iff, nat_eq, list_eq, Bool-cases,
}
use mathlib.Core.List.{append_assoc}
use booth_catalog.Text.{Text, split, push_head, join, has_prefix, trim_suffix}

abbrev pub IsCons {ℓ} : {A : Type ℓ} → List A → Type ℓ
IsCons {A} l = (x : A) × (xs : List A) × (l ≡ x ∷ xs)

module _ (x : ℕ) where
  pub split-IsCons : (s : Text) → IsCons (split x s)
  unfolding split
  split-IsCons [] = ([], [], refl)
  split-IsCons (c ∷ s) = elim (Bool-cases (c == x)) [
    | inl e ↦ ([], split x s, rw e)
    | inr e ↦ rw e (push-IsCons c (split x s))
  ]
    where
      push-IsCons : (c : ℕ) (l : List Text) → IsCons (push_head c l)
      push-IsCons c [] = (c ∷ [], [], refl)
      push-IsCons c (p ∷ ps) = (c ∷ p, ps, refl)

  push_head-append :
      (c : ℕ) (l m : List Text) → IsCons l → push_head c (l ++ m) ≡ push_head c l ++ m
  push_head-append c [] m (p, ps, e) = cc
  push_head-append c (p ∷ ps) m h = refl

  pub split-append : (s t : Text) → split x (s ++ x ∷ t) ≡ split x s ++ split x t
  unfolding split
  split-append [] t = rw (eq_refl x)
  split-append (c ∷ s) t = elim (Bool-cases (c == x)) [
    | inl e ↦ rw e (ap (λ l. [] ∷ l) (split-append s t))
    | inr e ↦
        rw e (rw (split-append s t) (push_head-append c (split x s) (split x t) (split-IsCons s)))
  ]

  join-push_head : (c : ℕ) (l : List Text) → join (x ∷ []) (push_head c l) ≡ c ∷ join (x ∷ []) l
  unfolding join
  join-push_head c [] = refl
  join-push_head c (p ∷ []) = refl
  join-push_head c (p ∷ q ∷ ps) = refl

  join-nil-cons : (l : List Text) → IsCons l → join (x ∷ []) ([] ∷ l) ≡ x ∷ join (x ∷ []) l
  unfolding join
  join-nil-cons [] (p, ps, e) = cc
  join-nil-cons (p ∷ ps) h = refl

  -- Joining the parts of a split gives the text back.
  pub join-split : (s : Text) → join (x ∷ []) (split x s) ≡ s
  unfolding split
  join-split [] = unfold join in refl
  join-split (c ∷ s) = elim (Bool-cases (c == x)) [
    | inl e ↦ rw e (
        join-nil-cons (split x s) (split-IsCons s)
        ∙ ap (λ t. x ∷ t) (join-split s)
        ∙ ap (λ d. d ∷ s) (sym ((eq_iff c x).0 e)))
    | inr e ↦ rw e (join-push_head c (split x s) ∙ ap (λ t. c ∷ t) (join-split s))
  ]

  pub join-append :
      (l m : List Text)
      → IsCons l
      → IsCons m
      → join (x ∷ []) (l ++ m) ≡ join (x ∷ []) l ++ x ∷ join (x ∷ []) m
  unfolding join
  join-append [] m (p, ps, e) hm = cc
  join-append (p ∷ []) [] hl (q, qs, e) = cc
  join-append (p ∷ []) (q ∷ m) hl hm = refl
  join-append (p ∷ q ∷ l) m hl hm =
      rw (join-append (q ∷ l) m (q, l, refl) hm)
        (sym (append_assoc p (x ∷ join (x ∷ []) (q ∷ l)) _))

  -- A text either keeps its suffix or ends in it.
  pub trim_suffix-cases : (s : Text) → (trim_suffix x s ≡ s) ⊎ ((t : Text) × (s ≡ t ++ x ∷ []))
  unfolding trim_suffix
  trim_suffix-cases [] = inl refl
  trim_suffix-cases (c ∷ []) = elim (Bool-cases (c == x)) [
    | inl e ↦ inr ([], ap (λ d. d ∷ []) ((eq_iff c x).0 e))
    | inr e ↦ inl (rw e)
  ]
  trim_suffix-cases (c ∷ d ∷ s) = elim (trim_suffix-cases (d ∷ s)) [
    | inl e ↦ inl (ap (λ t. c ∷ t) e)
    | inr (t, e) ↦ inr (c ∷ t, ap (λ t. c ∷ t) e)
  ]

-- A prefix is what the text begins with.
pub has_prefix_sound : (s p : Text) → has_prefix s p ≡ true → (t : Text) × (s ≡ p ++ t)
unfolding has_prefix
has_prefix_sound s [] h = (s, refl)
has_prefix_sound [] (p ∷ ps) h = cc
has_prefix_sound (c ∷ s) (p ∷ ps) h =
    let (t, e) = has_prefix_sound s ps (ground arith) in
    let d : c ≡ p = (eq_iff c p).0 (ground arith) in (t, cc)

pub has_prefix-append : (p t : Text) → has_prefix (p ++ t) p ≡ true
unfolding has_prefix
has_prefix-append [] [] = refl
has_prefix-append [] (c ∷ t) = refl
has_prefix-append (p ∷ ps) t = ground (arith, has_prefix-append ps t)
