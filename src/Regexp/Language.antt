-- ===== src/Regexp/Language.antt =====
-- The matcher decides the language of an expression.
use booth_catalog.Prelude.{
  ℕ, ◌≡◌, refl, ap, sym, ◌∙◌, ◌↔◌, ◌⊎◌, inl, inr, Bool, true, false, [], ◌∷◌, ◌++◌, arith,
  if◌then◌else◌, Bool-cases,
}
use booth_catalog.Text.{Text}
use booth_catalog.Regexp.{Regex, never, empty, class, seq, alt, star, nullable, derivative, matches}

-- The texts that an expression stands for.
pub data Matches : Regex → Text → Type 0 where
  nil : {s : Text} → s ≡ [] → Matches empty s
  char : {p : ℕ → Bool} {s : Text} (c : ℕ) → p c ≡ true → s ≡ c ∷ [] → Matches (class p) s
  cat :
      {r q : Regex} {s : Text} (a b : Text)
      → Matches r a
      → Matches q b
      → s ≡ a ++ b
      → Matches (seq r q) s
  left : {r q : Regex} {s : Text} → Matches r s → Matches (alt r q) s
  right : {r q : Regex} {s : Text} → Matches q s → Matches (alt r q) s
  stop : {r : Regex} {s : Text} → s ≡ [] → Matches (star r) s
  more :
      {r : Regex} {s : Text} (c : ℕ) (a b : Text)
      → Matches r (c ∷ a)
      → Matches (star r) b
      → s ≡ (c ∷ a) ++ b
      → Matches (star r) s

nullable_sound : (r : Regex) → nullable r ≡ true → Matches r []
unfolding nullable
nullable_sound never h = cc
nullable_sound empty h = nil refl
nullable_sound (class p) h = cc
nullable_sound (seq r q) h =
    cat [] [] (nullable_sound r (ground arith)) (nullable_sound q (ground arith)) refl
nullable_sound (alt r q) h = elim (Bool-cases (nullable r)) [
  | inl e ↦ left (nullable_sound r e)
  | inr e ↦ right (nullable_sound q (ground arith))
]
nullable_sound (star r) h = stop refl

nullable_complete : {r : Regex} {s : Text} → Matches r s → s ≡ [] → nullable r ≡ true
unfolding nullable
nullable_complete (nil e) h = refl
nullable_complete (char c p e) h = cc
nullable_complete (cat [] b m n e) h =
    ground (arith, nullable_complete m refl, nullable_complete n (sym e ∙ h))
nullable_complete (cat (c ∷ a) b m n e) h = cc
nullable_complete (left m) h = ground (arith, nullable_complete m h)
nullable_complete (right m) h = ground (arith, nullable_complete m h)
nullable_complete (stop e) h = refl
nullable_complete (more c a b m n e) h = cc

if-Matches :
    (b : Bool) (r q : Regex) {s : Text}
    → Matches (if b then r else q) s
    → ((b ≡ true) × Matches r s) ⊎ ((b ≡ false) × Matches q s)
if-Matches true r q m = inl (refl, m)
if-Matches false r q m = inr (refl, m)

never-Matches : {s : Text} → ¬ Matches never s
never-Matches m = elim m [ ]

-- A derivative stands for the rests of the texts that begin with its character.
derivative_sound : (c : ℕ) (r : Regex) {s : Text} → Matches (derivative c r) s → Matches r (c ∷ s)
unfolding derivative
derivative_sound c never m = absurd (never-Matches m)
derivative_sound c empty m = absurd (never-Matches m)
derivative_sound c (class p) m = elim (if-Matches (p c) empty never m) [
  | inl (yes_c, nil e) ↦ char c yes_c (ap (λ t. c ∷ t) e)
  | inr (_, n) ↦ absurd (never-Matches n)
]
derivative_sound c (alt r q) (left m) = left (derivative_sound c r m)
derivative_sound c (alt r q) (right m) = right (derivative_sound c q m)
derivative_sound c (star r) (cat a b m n e) =
    more c a b (derivative_sound c r m) n (ap (λ t. c ∷ t) e)
derivative_sound c (seq r q) m = elim (if-Matches (nullable r) _ _ m) [
  | inl (null, left (cat a b x y e)) ↦ cat (c ∷ a) b (derivative_sound c r x) y (ap (λ t. c ∷ t) e)
  | inl (null, right x) ↦ cat [] _ (nullable_sound r null) (derivative_sound c q x) refl
  | inr (_, cat a b x y e) ↦ cat (c ∷ a) b (derivative_sound c r x) y (ap (λ t. c ∷ t) e)
]

-- The part of a derivative that a sequence always has.
if-cat :
    (b : Bool) {r : Regex} (q : Regex) {s : Text}
    → Matches r s
    → Matches (if b then alt r q else r) s
if-cat true q m = left m
if-cat false q m = m

derivative_complete :
    (c : ℕ) {r : Regex} {t : Text} (s : Text) → Matches r t → t ≡ c ∷ s → Matches (derivative c r) s
unfolding derivative
derivative_complete c s (nil e) h = cc
derivative_complete c s (char {p = p} d q e) h = let here : p c ≡ true = cc in rw here (nil (cc))
derivative_complete c s (left m) h = left (derivative_complete c s m h)
derivative_complete c s (right m) h = right (derivative_complete c s m h)
derivative_complete c s (stop e) h = cc
derivative_complete c s (more {r = r} d a b m n e) h =
    cat a b (derivative_complete c a m (cc)) n (cc)
derivative_complete c s (cat {r = r} {q = q} [] b m n e) h =
    let null : nullable r ≡ true = nullable_complete m refl in
    rw null (right (derivative_complete c s n (sym e ∙ h)))
derivative_complete c s (cat {r = r} {q = q} (d ∷ a) b m n e) h =
    if-cat (nullable r) _ (cat a b (derivative_complete c a m (cc)) n (cc))

-- The matcher accepts exactly the texts that the expression stands for.
pub matches_iff : (r : Regex) (s : Text) → (matches r s ≡ true) ↔ Matches r s
unfolding matches
matches_iff r [] = (nullable_sound r, λ m. nullable_complete m refl)
matches_iff r (c ∷ s) =
    let (to, from) = matches_iff (derivative c r) s in
    (λ h. derivative_sound c r (to h), λ m. from (derivative_complete c s m refl))
