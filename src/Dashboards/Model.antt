-- ===== src/Dashboards/Model.antt =====
-- The records of internal/dashboards/model.go and the validation of what is published.
pub mod Laws
pub mod Canonical
use booth_catalog.Prelude.{
  ℕ, zero, Bool, true, false, not, ◌&&◌, ◌||◌, List, [], ◌∷◌, ◌++◌, ltb, leb, ◌+◌, suc, ◌==◌, Eq,
  eq_iff, nat_eq, list_eq, if◌then◌else◌, Option, none, some, any, length, ℤ, ◌≡◌, ◌↔◌, arith,
}
use booth_catalog.Text.{Text, txt, trim_space, byte_len, has_prefix, contains_any}
use booth_catalog.Regexp.{matches}
use booth_catalog.Asset.Error.{Result, ok, err, invalid, ◌>>=◌, ◌>>◌, refuse_if}
use booth_catalog.Asset.Validation.{text, valid_workspace}
use booth_catalog.Asset.Location.{Location, normalize_location}
use booth_catalog.Data.Model.{Time}
use booth_catalog.Data.Upsert.{module_re, is_zero, truncate}

abbrev pub max_external_id : ℕ
max_external_id = 200

abbrev pub max_name : ℕ
max_name = 200

abbrev pub max_description : ℕ
max_description = 4000

abbrev pub max_owner : ℕ
max_owner = 200

abbrev pub max_path : ℕ
max_path = 500

abbrev pub max_source_text : ℕ
max_source_text = 300

abbrev pub max_sources : ℕ
max_sources = 200

pub data SourceType : Type 0 where
  dataset location external : SourceType
  other : Text → SourceType

abbrev pub source_type_beq : SourceType → SourceType → Bool
source_type_beq dataset dataset = true
source_type_beq location location = true
source_type_beq external external = true
source_type_beq (other s) (other t) = s == t
source_type_beq _ _ = false

pub source_type_beq_iff : (s t : SourceType) → (source_type_beq s t ≡ true) ↔ (s ≡ t)
source_type_beq_iff (other s) (other t) = ground (arith, eq_iff s t)
source_type_beq_iff dataset t = elim t [
  | dataset ↦ ground arith
  | location ↦ ground arith
  | external ↦ ground arith
  | other x ↦ ground arith
]
source_type_beq_iff location t = elim t [
  | dataset ↦ ground arith
  | location ↦ ground arith
  | external ↦ ground arith
  | other x ↦ ground arith
]
source_type_beq_iff external t = elim t [
  | dataset ↦ ground arith
  | location ↦ ground arith
  | external ↦ ground arith
  | other x ↦ ground arith
]
source_type_beq_iff (other s) dataset = ground arith
source_type_beq_iff (other s) location = ground arith
source_type_beq_iff (other s) external = ground arith

instance abbrev pub source_type_eq : Eq SourceType
source_type_eq = record { beq = source_type_beq; beq_iff = source_type_beq_iff }

pub record Source : Type 0 where
  pub type : SourceType
  pub dataset_id : Text
  pub backend_id : Text
  pub path : Text
  pub system : Text
  pub name : Text

abbrev pub source_beq : Source → Source → Bool
source_beq a b =
    a.type == b.type
    && a.dataset_id == b.dataset_id
    && a.backend_id == b.backend_id
    && a.path == b.path
    && a.system == b.system
    && a.name == b.name

pub source_beq_iff : (a b : Source) → (source_beq a b ≡ true) ↔ (a ≡ b)
source_beq_iff a b = ground (
  arith,
  eq_iff a.type b.type,
  eq_iff a.dataset_id b.dataset_id,
  eq_iff a.backend_id b.backend_id,
  eq_iff a.path b.path,
  eq_iff a.system b.system,
  eq_iff a.name b.name,
)

instance abbrev pub source_eq : Eq Source
source_eq = record { beq = source_beq; beq_iff = source_beq_iff }

-- A Source{} with no field set but its type.
abbrev pub bare : SourceType → Source
bare t = record { type = t; dataset_id = []; backend_id = []; path = []; system = []; name = [] }

abbrev pub normalize_as : SourceType → Source → Result Source
normalize_as dataset s = do
  id ← text (txt "datasetId") s.dataset_id 64 true false
  ok (record (bare dataset) { dataset_id = id })
normalize_as location s = do
  l ← normalize_location (txt "location") (record { backend_id = s.backend_id; path = s.path })
  ok (record (bare location) { backend_id = l.backend_id; path = l.path })
normalize_as external s = do
  name ← text (txt "name") s.name max_source_text true false
  system ← text (txt "system") s.system max_source_text false false
  ok (record (bare external) { name = name; system = system })
normalize_as (other t) s = err (invalid (txt "type"))

unfoldable pub normalize_source : Source → Result Source
normalize_source s = normalize_as s.type s

pub record Dashboard : Type 0 where
  pub id : Text
  pub workspace : Text
  pub source_module : Text
  pub external_id : Text
  pub name : Text
  pub description : Text
  pub owner : Text
  pub path : Text
  pub lineage_complete : Bool
  pub sources : List Source
  pub created_at : Time
  pub updated_at : Time

pub record Upsert : Type 0 where
  pub workspace : Text
  pub source_module : Text
  pub external_id : Text
  pub name : Text
  pub description : Text
  pub owner : Text
  pub path : Text
  pub lineage_complete : Bool
  pub sources : List Source
  pub at : Time
  pub new_id : Text
  pub received_at : Time

pub record ListFilter : Type 0 where
  pub query : Text
  pub owner : Text
  pub source_module : Text
  pub limit : ℤ
  pub offset : ℤ

-- A character that no path of the shell has: a control character of ASCII, DEL or a blank.
abbrev pub is_unsafe : ℕ → Bool
is_unsafe c = ltb c 0x20 || c == 0x7f || c == b' '

abbrev pub starts_outside : Text → Bool
starts_outside [] = true
starts_outside (c ∷ p) = not (c == b'/')

abbrev pub check_path : Text → Result Text
check_path [] = ok []
check_path (c ∷ p) = do
  refuse_if (ltb max_path (byte_len (c ∷ p))) (txt "path")
  refuse_if
      (not (c == b'/')
        || has_prefix (c ∷ p) (b'/' ∷ b'/' ∷ [])
        || contains_any (c ∷ p) (b'\\' ∷ 0 ∷ [])
        || any is_unsafe (c ∷ p))
      (txt "path")
  ok (c ∷ p)

unfoldable pub normalize_path : Text → Result Text
normalize_path p = check_path (trim_space p)

abbrev pub keep_result : List Source → ℕ → Result Source → List Source × ℕ
keep_result kept dropped (err e) = (kept, suc dropped)
keep_result kept dropped (ok s) =
    if leb max_sources (length kept)
    then (kept, suc dropped)
    else if any (λ k. k == s) kept
    then (kept, dropped)
    else (kept ++ s ∷ [], dropped)

-- The body of the loop over the sources: on those kept so far and the number of those dropped.
unfoldable pub keep_source : Source → List Source × ℕ → List Source × ℕ
keep_source raw (kept, dropped) = keep_result kept dropped (normalize_source raw)

unfoldable pub keep_sources : List Source × ℕ → List Source → List Source × ℕ
keep_sources acc [] = acc
keep_sources acc (raw ∷ raws) = keep_sources (keep_source raw acc) raws

abbrev pub complete_if : ℕ → Bool → Bool
complete_if zero claimed = claimed
complete_if (suc n) claimed = false

-- `out`, once its fields have been validated.
abbrev pub canonical : Upsert → Text → Text → Text → Text → Text → Upsert
canonical u external_id name description owner path =
    let (kept, dropped) = keep_sources ([], 0) u.sources in
    record u {
      external_id = external_id;
      name = name;
      description = description;
      owner = owner;
      path = path;
      at = truncate u.at;
      sources = kept;
      lineage_complete = complete_if dropped u.lineage_complete;
    }

-- The upsert in canonical form, and the number of sources dropped.
unfoldable pub normalize : Upsert → Result (Upsert × ℕ)
normalize u = do
  refuse_if (not (valid_workspace u.workspace)) (txt "workspace")
  refuse_if (not (matches module_re u.source_module)) (txt "publishedBy")
  external_id ← text (txt "dashboardId") u.external_id max_external_id true false
  name ← text (txt "name") u.name max_name true false
  description ← text (txt "description") u.description max_description false true
  owner ← text (txt "owner") u.owner max_owner false false
  path ← normalize_path u.path
  refuse_if (is_zero u.at) (txt "publishedAt")
  ok (canonical u external_id name description owner path, (keep_sources ([], 0) u.sources).1)
