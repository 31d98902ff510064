-- ===== src/Text/Trim.antt =====
-- Trimming blanks.
use booth_catalog.Prelude.{
  ◌≡◌, refl, ap, ◌∙◌, inl, inr, false, [], ◌∷◌, ◌==◌, nat_eq, list_eq, Bool-cases, ◌&&◌,
}
use booth_catalog.Text.{Text, is_space, trim_left, trim_right, trim_space}

-- The text is empty or does not begin with a blank.
abbrev HeadFull : Text → Type 0
HeadFull [] = Unit
HeadFull (c ∷ s) = is_space c ≡ false

trim_left-HeadFull : (s : Text) → HeadFull (trim_left s)
unfolding trim_left
trim_left-HeadFull [] = tt
trim_left-HeadFull (c ∷ s) = elim (Bool-cases (is_space c)) [
  | inl e ↦ rw e (trim_left-HeadFull s)
  | inr e ↦ rw e e
]

trim_left_of_HeadFull : (s : Text) → HeadFull s → trim_left s ≡ s
unfolding trim_left
trim_left_of_HeadFull [] h = refl
trim_left_of_HeadFull (c ∷ s) h = rw h

trim_right-HeadFull : (s : Text) → HeadFull s → HeadFull (trim_right s)
unfolding trim_right
trim_right-HeadFull [] h = tt
trim_right-HeadFull (c ∷ s) h = rw h h

trim_right_idem : (s : Text) → trim_right (trim_right s) ≡ trim_right s
unfolding trim_right
trim_right_idem [] = refl
trim_right_idem (c ∷ s) = elim (Bool-cases (is_space c && trim_right s == [])) [
  | inl e ↦ rw e
  | inr e ↦ rw e (cc (trim_right_idem s, e))
]

-- Trimming a trimmed text changes nothing.
pub trim_space_idem : (s : Text) → trim_space (trim_space s) ≡ trim_space s
unfolding trim_space
trim_space_idem s =
    ap trim_right (
      trim_left_of_HeadFull (trim_right (trim_left s))
        (trim_right-HeadFull (trim_left s) (trim_left-HeadFull s)))
    ∙ trim_right_idem (trim_left s)
