-- ===== src/Regexp/Repeat.antt =====
-- Runs of a character class, which most expressions of the program are made of.
use booth_catalog.Prelude.{
  ℕ, zero, suc, sym, ◌≤◌, ◌≡◌, refl, ◌↔◌, Bool, true, [], ◌∷◌, ◌++◌, arith, length, all, ap, ◌∙◌,
  ap,
}
use booth_catalog.Text.{Text}
use booth_catalog.Regexp.{Regex, class, seq, star, up_to}
use booth_catalog.Regexp.Language.{Matches, nil, char, cat, left, right, stop, more}

module _ (p : ℕ → Bool) where
  char_inv : {s : Text} → Matches (class p) s → (c : ℕ) × (p c ≡ true) × (s ≡ c ∷ [])
  char_inv (char c h e) = (c, h, e)

  up_to_sound :
      (n : ℕ) {s : Text} → Matches (up_to n (class p)) s → (all p s ≡ true) × (length s ≤ n)
  unfolding up_to
  up_to_sound zero (nil e) = (ground arith, ground arith)
  up_to_sound (suc n) (left (nil e)) = (ground arith, ground arith)
  up_to_sound (suc n) (right (cat a b m k e)) =
      let (c, h, ea) = char_inv m in
      let (hb, lb) = up_to_sound n k in
      let es : _ ≡ c ∷ b = e ∙ ap (λ t. t ++ b) ea in (rw es (ground arith), rw es (omega arith))

  up_to_complete :
      (n : ℕ) (s : Text) → all p s ≡ true → length s ≤ n → Matches (up_to n (class p)) s
  unfolding up_to
  up_to_complete zero [] h l = nil refl
  up_to_complete zero (c ∷ s) h l = absurd (omega arith)
  up_to_complete (suc n) [] h l = left (nil refl)
  up_to_complete (suc n) (c ∷ s) h l = right (
      cat (c ∷ []) s (char c (ground arith) refl) (up_to_complete n s (ground arith) (omega arith))
        refl)

  star_sound : {s : Text} → Matches (star (class p)) s → all p s ≡ true
  star_sound (stop e) = ground arith
  star_sound (more c a b m n e) =
      let (d, h, ea) = char_inv m in
      let es : _ ≡ d ∷ b = e ∙ ap (λ t. t ++ b) ea in rw es (ground (arith, star_sound n))

  star_complete : (s : Text) → all p s ≡ true → Matches (star (class p)) s
  star_complete [] h = stop refl
  star_complete (c ∷ s) h =
      more c [] s (char c (ground arith) refl) (star_complete s (ground arith)) refl

  abbrev pub InRange : ℕ → Text → Type 0
  InRange n s = (all p s ≡ true) × (length s ≤ n)

  -- p{0,n}
  pub Matches-up_to : (n : ℕ) (s : Text) → Matches (up_to n (class p)) s ↔ InRange n s
  Matches-up_to n s = (up_to_sound n, λ (h, l). up_to_complete n s h l)

  -- p*
  pub Matches-star : (s : Text) → Matches (star (class p)) s ↔ (all p s ≡ true)
  Matches-star s = (star_sound, star_complete s)

-- A class and then at most `n` of another.
pub seq-up_to :
    (p q : ℕ → Bool) (n c : ℕ) (s : Text)
    → Matches (seq (class p) (up_to n (class q))) (c ∷ s)
      ↔ ((p c ≡ true) × (all q s ≡ true) × (length s ≤ n))
seq-up_to p q n c s =
    (to, λ (a, b, l). cat (c ∷ []) s (char c a refl) ((Matches-up_to q n s).1 (b, l)) refl)
  where
    to :
        Matches (seq (class p) (up_to n (class q))) (c ∷ s)
        → (p c ≡ true) × (all q s ≡ true) × (length s ≤ n)
    to (cat a b m k e) =
        let (d, h, ea) = char_inv p m in
        let (hb, lb) = (Matches-up_to q n b).0 k in
        let es : c ∷ s ≡ d ∷ b = e ∙ ap (λ t. t ++ b) ea in (cc, ground arith, ground arith)

pub not-seq-nil : {p : ℕ → Bool} {r : Regex} {s : Text} → s ≡ [] → ¬ Matches (seq (class p) r) s
not-seq-nil h (cat a b m k e) =
    let (c, _, ea) = char_inv _ m in let es : [] ≡ c ∷ b = sym h ∙ e ∙ ap (λ t. t ++ b) ea in cc
