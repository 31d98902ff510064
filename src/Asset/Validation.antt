-- ===== src/Asset/Validation.antt =====
-- The validation helpers of internal/asset/asset.go: `ValidWorkspace` and `Text`.
pub mod Laws
use booth_catalog.Prelude.{
  ℕ, Bool, not, ◌&&◌, ◌||◌, [], ◌∷◌, ltb, ◌==◌, nat_eq, list_eq, length, any,
}
use booth_catalog.Text.{Text, valid_string, is_control, trim_space}
use booth_catalog.Regexp.{Regex, class, seq, up_to, lowercase, digit, matches}
use booth_catalog.Asset.Error.{Result, ok, ◌>>=◌, ◌>>◌, refuse_if}

abbrev pub slug_char : ℕ → Bool
slug_char c = lowercase c || digit c || c == b'-'

-- ^[a-z0-9-]{1,63}$
unfoldable pub workspace_re : Regex
workspace_re = seq (class slug_char) (up_to 62 (class slug_char))

unfoldable pub valid_workspace : Text → Bool
unfolding workspace_re
valid_workspace ws = matches workspace_re ws

-- A control character that the field does not allow.
abbrev pub is_refused : Bool → ℕ → Bool
is_refused multiline c = is_control c && not (multiline && (c == b'\n' || c == b'\t' || c == b'\r'))

unfoldable pub text : Text → Text → ℕ → Bool → Bool → Result Text
text field raw max required multiline = do
  let s = trim_space raw
  refuse_if (not (valid_string s)) field
  refuse_if (any (is_refused multiline) s) field
  refuse_if (ltb max (length s)) field
  refuse_if (required && s == []) field
  ok s
