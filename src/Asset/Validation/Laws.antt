-- ===== src/Asset/Validation/Laws.antt =====
-- What an accepted workspace and an accepted text field are.
use booth_catalog.Prelude.{
  ℕ, ◌≤◌, ◌≡◌, ◌≢◌, refl, sym, ap, ◌∙◌, ◌↔◌, Bool, true, false, [], ◌∷◌, arith, eq_iff, nat_eq,
  list_eq, length, all, any,
}
use booth_catalog.Text.{Text, trim_space, valid_string}
use booth_catalog.Text.Trim.{trim_space_idem}
use booth_catalog.Regexp.Language.{matches_iff}
use booth_catalog.Regexp.Repeat.{seq-up_to, not-seq-nil}
use booth_catalog.Asset.Error.{ok}
use booth_catalog.Asset.Validation.{slug_char, valid_workspace, workspace_re, text, is_refused}

-- A workspace is accepted exactly if it is a slug of 1 to 63 characters.
pub valid_workspace_iff :
    (s : Text)
    → (valid_workspace s ≡ true) ↔ ((all slug_char s ≡ true) × (1 ≤ length s) × (length s ≤ 63))
unfolding valid_workspace
valid_workspace_iff [] = (
  λ h. absurd (not-seq-nil refl ((matches_iff workspace_re []).0 h)),
  λ (a, b, c). absurd (omega arith),
)
valid_workspace_iff (c ∷ s) =
    let (to, from) = matches_iff workspace_re (c ∷ s) in
    let (apart, together) = seq-up_to slug_char slug_char 62 c s in
    (
      λ h. let (a, b, l) = apart (to h) in (ground arith, omega arith, omega arith),
      λ (a, b, l). from (together (ground arith, ground arith, omega arith)),
    )

-- What `Text` makes of a field that it accepts.
pub record IsText (raw : Text) (max : ℕ) (required multiline : Bool) (s : Text) : Type 0 where
  pub trimmed : s ≡ trim_space raw
  pub valid : valid_string s ≡ true
  pub printable : any (is_refused multiline) s ≡ false
  pub fits : length s ≤ max
  pub present : required ≡ true → s ≢ []

module _ (field raw : Text) (max : ℕ) (required multiline : Bool) where
  -- A field is accepted exactly if, trimmed, it is valid UTF-8 without a control character that it
  -- may not have, is short enough, and is there if required; what is stored is the trimmed text.
  pub text_iff :
      (s : Text)
      → (text field raw max required multiline ≡ ok s) ↔ IsText raw max required multiline s
  unfolding text
  text_iff s = (
    λ h. record {
      trimmed = ground arith;
      valid = ground arith;
      printable = ground arith;
      fits = ground arith;
      present = λ r. ground (arith, eq_iff s []);
    },
    λ h. ground (arith, h.trimmed, h.present, eq_iff s []),
  )

-- What was stored is stored again as it is.
pub text_idem :
    (field raw : Text) (max : ℕ) (required multiline : Bool) (s : Text)
    → text field raw max required multiline ≡ ok s
    → text field s max required multiline ≡ ok s
text_idem field raw max required multiline s h =
    let is = (text_iff field raw max required multiline s).0 h in
    (text_iff field s max required multiline s).1 (record {
      trimmed = is.trimmed ∙ sym (trim_space_idem raw) ∙ ap trim_space (sym is.trimmed);
      valid = is.valid;
      printable = is.printable;
      fits = is.fits;
      present = is.present;
    })
