-- ===== src/Dashboards/Service.antt =====
-- internal/dashboards/service.go over the in-memory store. The dataset catalog is the interface
-- that the service sees it through; the clock and asset.NewID are arguments.
pub mod Resolving
pub mod Sourced
use booth_catalog.Prelude.{
  ℕ, Bool, true, false, not, List, [], ◌∷◌, ◌==◌, nat_eq, list_eq, Option, none, some, map,
}
use booth_catalog.Text.{Text, txt}
use booth_catalog.Regexp.{matches}
use booth_catalog.Asset.Error.{Result, ok, err, ◌>>=◌, ◌>>◌, refuse_if, with_value}
use booth_catalog.Asset.Validation.{text, valid_workspace}
use booth_catalog.Asset.Location.{Location}
use booth_catalog.Data.Model.{Time}
use booth_catalog.Data.Upsert.{module_re, is_zero, truncate}
use booth_catalog.Dashboards.Model.{
  max_external_id, SourceType, Source, Dashboard, Upsert, normalize,
}
use booth_catalog.Dashboards.Store.{MemoryStore}
use booth_catalog.Dashboards.Store

pub record DatasetRef : Type 0 where
  pub id : Text
  pub name : Text

-- What the dataset catalog answers: by workspace, and by ID or by location.
pub record DatasetResolver : Type 0 where
  pub by_id : Text → Text → Result (Option DatasetRef)
  pub by_location : Text → Location → Result (List DatasetRef)

pub record ResolvedSource : Type 0 where
  pub source : Source
  pub datasets : List DatasetRef

pub record Lineage : Type 0 where
  pub complete : Bool
  pub sources : List ResolvedSource

unfoldable pub apply : MemoryStore → Upsert → Text → Time → Result Bool × MemoryStore
apply m u new_id now =
    with_value m (normalize u)
      (λ (u, dropped). Store.apply m (record u { new_id = new_id; received_at = now }))

-- The validation that Remove begins with: the ID in canonical form.
abbrev pub checked_removal : Text → Text → Text → Time → Result Text
checked_removal ws source_module external_id at = do
  refuse_if (not (valid_workspace ws)) (txt "workspace")
  refuse_if (not (matches module_re source_module)) (txt "publishedBy")
  external_id ← text (txt "dashboardId") external_id max_external_id true false
  refuse_if (is_zero at) (txt "publishedAt")
  ok external_id

unfoldable pub remove : MemoryStore → Text → Text → Text → Time → Text → Result Bool × MemoryStore
remove m ws source_module external_id at new_id =
    with_value m (checked_removal ws source_module external_id at)
      (λ external_id. Store.remove m ws source_module external_id (truncate at) new_id)

abbrev pub as_list : Option DatasetRef → List DatasetRef
as_list none = []
as_list (some r) = r ∷ []

-- The datasets of one source.
abbrev pub datasets_as : SourceType → DatasetResolver → Text → Source → Result (List DatasetRef)
datasets_as SourceType.dataset r ws s = r.by_id ws s.dataset_id >>= λ ref. ok (as_list ref)
datasets_as SourceType.location r ws s =
    r.by_location ws (record { backend_id = s.backend_id; path = s.path })
datasets_as _ r ws s = ok []

unfoldable pub datasets_of : DatasetResolver → Text → Source → Result (List DatasetRef)
datasets_of r ws s = datasets_as s.type r ws s

-- The loop over the sources.
unfoldable pub resolve_all : DatasetResolver → Text → List Source → Result (List ResolvedSource)
resolve_all r ws [] = ok []
resolve_all r ws (s ∷ ss) = do
  datasets ← datasets_of r ws s
  rest ← resolve_all r ws ss
  ok (record { source = s; datasets = datasets } ∷ rest)

unfoldable pub resolve : DatasetResolver → Text → Dashboard → Result Lineage
resolve r ws d = do
  sources ← resolve_all r ws d.sources
  ok (record { complete = d.lineage_complete; sources = sources })

unfoldable pub get : DatasetResolver → MemoryStore → Text → Text → Result (Dashboard × Lineage)
get r m ws id = do d ← Store.get m ws id; lineage ← resolve r ws d; ok (d, lineage)
