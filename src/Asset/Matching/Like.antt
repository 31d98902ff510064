-- ===== src/Asset/Matching/Like.antt =====
-- `LikePattern` against the meaning of a LIKE pattern.
use mathlib.Core.List.{append-nil, append_assoc}
use booth_catalog.Prelude.{
  ℕ, ◌≡◌, ◌≢◌, refl, sym, ap, subst, ◌∙◌, ◌↔◌, inl, inr, Bool, true, false, [], ◌∷◌, ◌++◌, arith,
  ◌==◌, nat_eq, list_eq, Bool-cases, ◌||◌,
}
use booth_catalog.Text.{Text, valid_string, is_rune}
use booth_catalog.Asset.Matching.{escape, escape_all, like_pattern}

-- LIKE with the backslash as its escape character: `%` stands for any text, `_` for any one
-- character, an escaped character and any other one for itself.
pub data Like : Text → Text → Type 0 where
  nil : {p s : Text} → p ≡ [] → s ≡ [] → Like p s
  percent : {p s : Text} (q a b : Text) → p ≡ b'%' ∷ q → s ≡ a ++ b → Like q b → Like p s
  underscore :
      {p s : Text} (q : Text) (c : ℕ) (b : Text) → p ≡ b'_' ∷ q → s ≡ c ∷ b → Like q b → Like p s
  escaped :
      {p s : Text} (q : Text) (c : ℕ) (b : Text)
      → p ≡ b'\\' ∷ c ∷ q
      → s ≡ c ∷ b
      → Like q b
      → Like p s
  plain :
      {p s : Text} (q : Text) (c : ℕ) (b : Text)
      → c ≢ b'%'
      → c ≢ b'_'
      → c ≢ b'\\'
      → p ≡ c ∷ q
      → s ≡ c ∷ b
      → Like q b
      → Like p s

abbrev special : ℕ → Bool
special r = r == b'\\' || r == b'%' || r == b'_'

-- A pattern that begins with a character standing for itself.
abbrev Rest : ℕ → Text → Text → Type 0
Rest r q s = (b : Text) × (s ≡ r ∷ b) × Like q b

Rest-escaped : (r : ℕ) (q : Text) {p s : Text} → p ≡ b'\\' ∷ r ∷ q → Like p s → Rest r q s
Rest-escaped r q h (nil e e') = cc
Rest-escaped r q h (percent q' a b e e' l) = absurd (ground arith)
Rest-escaped r q h (underscore q' c b e e' l) = absurd (ground arith)
Rest-escaped r q h (escaped q' c b e e' l) = (b, cc, subst (λ x. Like x b) (cc) l)
Rest-escaped r q h (plain q' c b n m k e e' l) = absurd (ground arith)

Rest-plain : (r : ℕ) (q : Text) {p s : Text} → special r ≡ false → p ≡ r ∷ q → Like p s → Rest r q s
Rest-plain r q n h (nil e e') = cc
Rest-plain r q n h (percent q' a b e e' l) = absurd (ground arith)
Rest-plain r q n h (underscore q' c b e e' l) = absurd (ground arith)
Rest-plain r q n h (escaped q' c b e e' l) = absurd (ground arith)
Rest-plain r q n h (plain q' c b x y z e e' l) = (b, cc, subst (λ x. Like x b) (cc) l)

Rest-escape : (r : ℕ) (q s : Text) → is_rune r ≡ true → Like (escape r ++ q) s → Rest r q s
Rest-escape r q s h l = elim (Bool-cases (special r)) [
  | inl e ↦ Rest-escaped r q (rw e) l
  | inr e ↦ Rest-plain r q e (rw e (rw h)) l
]

Rest-percent :
    (q : Text) {p s : Text} → p ≡ b'%' ∷ q → Like p s → (a b : Text) × (s ≡ a ++ b) × Like q b
Rest-percent q h (nil e e') = cc
Rest-percent q h (percent q' a b e e' l) = (a, b, e', subst (λ x. Like x b) (cc) l)
Rest-percent q h (underscore q' c b e e' l) = absurd (ground arith)
Rest-percent q h (escaped q' c b e e' l) = absurd (ground arith)
Rest-percent q h (plain q' c b x y z e e' l) = absurd (ground arith)

-- A pattern that ends in `%` after the escaped term stands for the texts that begin with the term.
begins_sound :
    (t : Text) {s : Text}
    → valid_string t ≡ true
    → Like (escape_all t ++ b'%' ∷ []) s
    → (b : Text) × (s ≡ t ++ b)
unfolding escape_all
begins_sound [] {s} v l = (s, refl)
begins_sound (r ∷ t) {s} v l =
    let (b, e, l') =
      Rest-escape r (escape_all t ++ b'%' ∷ []) s (ground arith) (rw append_assoc at l) in
    let (b', e') = begins_sound t (ground arith) l' in (b', cc)

escape-Like : (r : ℕ) (q b : Text) → is_rune r ≡ true → Like q b → Like (escape r ++ q) (r ∷ b)
escape-Like r q b h l = elim (Bool-cases (special r)) [
  | inl e ↦ rw e (escaped q r b refl refl l)
  | inr e ↦ rw e (rw h (plain q r b (ground arith) (ground arith) (ground arith) refl refl l))
]

begins_complete : (t b : Text) → valid_string t ≡ true → Like (escape_all t ++ b'%' ∷ []) (t ++ b)
unfolding escape_all
begins_complete [] b v = percent [] b [] refl (sym (append-nil b)) (nil refl refl)
begins_complete (r ∷ t) b v = rw append_assoc (
    escape-Like r (escape_all t ++ b'%' ∷ []) (t ++ b) (ground arith)
      (begins_complete t b (ground arith)))

-- As a LIKE pattern, `LikePattern` of a valid term stands for exactly the texts that contain the
-- term: no character of the term acts as a wildcard.
pub like_pattern_iff :
    (t s : Text)
    → valid_string t ≡ true
    → Like (like_pattern t) s ↔ ((a b : Text) × (s ≡ a ++ (t ++ b)))
unfolding like_pattern
like_pattern_iff t s v = (
  λ l.
      let (a, b, e, l') = Rest-percent (escape_all t ++ b'%' ∷ []) refl l in
      let (b', e') = begins_sound t v l' in (a, b', e ∙ ap (λ x. a ++ x) e'),
  λ (a, b, e). percent (escape_all t ++ b'%' ∷ []) a (t ++ b) refl e (begins_complete t b v),
)
