-- ===== src/Code/Model.antt =====
-- The records of internal/code/model.go and their validation.
use booth_catalog.Prelude.{
  ℕ, Bool, true, false, not, ◌&&◌, ◌||◌, [], ltb, ◌==◌, nat_eq, list_eq, Option, any, ℤ,
}
use booth_catalog.Text.{Text, txt, trim_space, byte_len, valid_string, Casing, to_lower}
use booth_catalog.Regexp.{
  Regex, class, seq, star, up_to, matches, lowercase, uppercase, digit, one_of,
}
use booth_catalog.Asset.Error.{Result, ok, ◌>>=◌, ◌>>◌, refuse_if}
use booth_catalog.Asset.Validation.{text}
use booth_catalog.Data.Model.{Time}

abbrev pub max_name : ℕ
max_name = 200

abbrev pub max_description : ℕ
max_description = 4000

abbrev pub max_owner : ℕ
max_owner = 200

abbrev pub max_notes : ℕ
max_notes = 4000

abbrev pub max_language : ℕ
max_language = 32

abbrev pub latest_version : Text
latest_version = txt "latest"

abbrev pub version_start : ℕ → Bool
version_start c = uppercase c || lowercase c || digit c

abbrev pub version_char : ℕ → Bool
version_char c = uppercase c || lowercase c || digit c || one_of (txt "._+-") c

-- ^[A-Za-z0-9][A-Za-z0-9._+-]{0,63}$
unfoldable pub version_re : Regex
version_re = seq (class version_start) (up_to 63 (class version_char))

abbrev pub language_start : ℕ → Bool
language_start c = lowercase c || digit c

abbrev pub language_char : ℕ → Bool
language_char c = lowercase c || digit c || one_of (txt "+#._-") c

-- ^[a-z0-9][a-z0-9+#._-]*$
abbrev pub language_re : Regex
language_re = seq (class language_start) (star (class language_char))

pub record VersionSummary : Type 0 where
  pub version : Text
  pub seq_no : ℕ
  pub notes : Text
  pub size_bytes : ℕ
  pub published_by : Text
  pub published_at : Time

pub record Version : Type 0 where
  pub summary : VersionSummary
  pub source : Text

pub record Entry : Type 0 where
  pub id : Text
  pub workspace : Text
  pub name : Text
  pub description : Text
  pub owner : Text
  pub language : Text
  pub created_by : Text
  pub created_at : Time
  pub updated_at : Time
  pub latest : Option VersionSummary
  pub version_count : ℕ

pub record EntryInput : Type 0 where
  pub name : Text
  pub description : Text
  pub owner : Text
  pub language : Text

pub record VersionInput : Type 0 where
  pub version : Text
  pub source : Text
  pub notes : Text

pub record ListFilter : Type 0 where
  pub query : Text
  pub owner : Text
  pub language : Text
  pub limit : ℤ
  pub offset : ℤ

unfoldable pub normalize_version : ℕ → VersionInput → Result VersionInput
unfolding version_re
normalize_version max_source i = do
  let version = trim_space i.version
  refuse_if (version == latest_version) (txt "version")
  refuse_if (not (matches version_re version)) (txt "version")
  notes ← text (txt "notes") i.notes max_notes false true
  refuse_if (trim_space i.source == []) (txt "source")
  refuse_if (not (valid_string i.source)) (txt "source")
  refuse_if (any (λ c. c == 0) i.source) (txt "source")
  refuse_if (ltb max_source (byte_len i.source)) (txt "source")
  ok (record { version = version; source = i.source; notes = notes })

module _ ⦃u : Casing⦄ where
  abbrev pub bad_language : Text → Bool
  bad_language lang =
      not (lang == []) && (ltb max_language (byte_len lang) || not (matches language_re lang))

  unfoldable pub normalize_entry : EntryInput → Result EntryInput
  normalize_entry i = do
    name ← text (txt "name") i.name max_name true false
    description ← text (txt "description") i.description max_description false true
    owner ← text (txt "owner") i.owner max_owner false false
    let lang = to_lower (trim_space i.language)
    refuse_if (bad_language lang) (txt "language")
    ok (record { name = name; description = description; owner = owner; language = lang })
