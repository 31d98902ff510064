-- ===== src/Asset/Location.antt =====
-- Storage locations (internal/asset/asset.go): `NormalizeLocation` and `PathContains`.
pub mod Laws
use booth_catalog.Prelude.{
  ℕ, Bool, true, false, not, ◌&&◌, ◌||◌, List, [], ◌∷◌, ◌++◌, ltb, ◌==◌, Eq, eq_iff, ◌≡◌, ◌↔◌,
  arith, nat_eq, list_eq,
}
use booth_catalog.Text.{Text, txt, byte_len, has_prefix, contains_any, trim_suffix, split}
use booth_catalog.Regexp.{Regex, class, seq, up_to, optional, lowercase, digit, matches}
use booth_catalog.Asset.Error.{Result, ok, err, invalid, ◌>>=◌, ◌>>◌, refuse_if}

pub record Location : Type 0 where
  pub backend_id : Text
  pub path : Text

abbrev pub no_location : Location
no_location = record { backend_id = []; path = [] }

abbrev pub location_beq : Location → Location → Bool
location_beq a b = a.backend_id == b.backend_id && a.path == b.path

pub location_beq_iff : (a b : Location) → (location_beq a b ≡ true) ↔ (a ≡ b)
location_beq_iff a b = ground (arith, eq_iff a.backend_id b.backend_id, eq_iff a.path b.path)

instance abbrev pub location_eq : Eq Location
location_eq = record { beq = location_beq; beq_iff = location_beq_iff }

abbrev pub backend_end : ℕ → Bool
backend_end c = lowercase c || digit c

abbrev pub backend_char : ℕ → Bool
backend_char c = lowercase c || digit c || c == b'-'

-- ^[a-z0-9]([a-z0-9-]{0,61}[a-z0-9])?$
unfoldable pub backend_id_re : Regex
backend_id_re =
    seq (class backend_end) (optional (seq (up_to 61 (class backend_char)) (class backend_end)))

abbrev pub max_path_len : ℕ
max_path_len = 1024

-- The loop over the segments.
abbrev pub check_segments : Text → List Text → Result (Unit {0})
check_segments field [] = ok tt
check_segments field (seg ∷ segs) = do
  refuse_if (seg == []) field
  refuse_if (seg == txt "." || seg == txt "..") field
  check_segments field segs

-- `if p != "" { … }`
abbrev pub check_path : Text → Text → Result (Unit {0})
check_path field [] = ok tt
check_path field (c ∷ p) = check_segments field (split b'/' (c ∷ p))

unfoldable pub normalize_location : Text → Location → Result Location
normalize_location field l = do
  refuse_if (not (matches backend_id_re l.backend_id)) (field ++ txt ".backendId")
  let p = trim_suffix b'/' l.path
  refuse_if (ltb max_path_len (byte_len p)) (field ++ txt ".path")
  refuse_if (contains_any p (0 ∷ b'\\' ∷ [])) (field ++ txt ".path")
  check_path (field ++ txt ".path") p
  ok (record { backend_id = l.backend_id; path = p })

unfoldable pub path_contains : Text → Text → Bool
path_contains container p =
    container == [] || p == container || has_prefix p (container ++ b'/' ∷ [])
