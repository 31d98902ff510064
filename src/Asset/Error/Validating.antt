-- ===== src/Asset/Error/Validating.antt =====
-- What only ever fails with a ValidationError (internal/asset/asset.go and its callers).
use booth_catalog.Prelude.{ℕ, Bool, List, [], ◌∷◌, ◌++◌, nat_eq, list_eq, ◌≡◌, arith}
use booth_catalog.Text.{Text, txt, split, trim_suffix}
use booth_catalog.Asset.Error.{
  Error, not_found, exists, managed_externally, forbidden, failure, invalid, Result, ok, err,
}
use booth_catalog.Asset.Validation.{text}
use booth_catalog.Asset.Location.{Location, check_segments, check_path, normalize_location}

abbrev pub IsValidated {ℓ} : {T : Type ℓ} → Result T → Type 0
IsValidated (ok x) = Unit
IsValidated (err (invalid field)) = Unit
IsValidated (err e) = ⊥

-- The field of the error.
pub IsValidated-err {ℓ} :
    {T : Type ℓ} (r : Result T) (e : Error)
    → IsValidated r
    → r ≡ err e
    → (field : Text) × (e ≡ invalid field)
IsValidated-err (ok x) e h p = absurd (ground arith)
IsValidated-err (err (invalid field)) e h p = (field, ground arith)
IsValidated-err (err not_found) e h p = absurd h
IsValidated-err (err exists) e h p = absurd h
IsValidated-err (err managed_externally) e h p = absurd h
IsValidated-err (err forbidden) e h p = absurd h
IsValidated-err (err (failure t)) e h p = absurd h

pub text-IsValidated :
    (field raw : Text) (max : ℕ) (required multiline : Bool)
    → IsValidated (text field raw max required multiline)
unfolding text
text-IsValidated field raw max required multiline = ground arith

check_segments-IsValidated :
    (field : Text) (segs : List Text) → IsValidated (check_segments field segs)
check_segments-IsValidated field [] = tt
check_segments-IsValidated field (seg ∷ segs) =
    ground (arith, check_segments-IsValidated field segs)

check_path-IsValidated : (field p : Text) → IsValidated (check_path field p)
check_path-IsValidated field [] = tt
check_path-IsValidated field (c ∷ p) = check_segments-IsValidated field (split b'/' (c ∷ p))

pub normalize_location-IsValidated :
    (field : Text) (l : Location) → IsValidated (normalize_location field l)
unfolding normalize_location
normalize_location-IsValidated field l =
    ground (arith, check_path-IsValidated (field ++ txt ".path") (trim_suffix b'/' l.path))
