-- ===== src/Events/Dashboards.antt =====
-- internal/events/processor.go: the events of dashboards, applied to the dashboard catalog. The catalog
-- is the interface that the processor drives; over the in-memory store it is the dashboard service.
use booth_catalog.Prelude.{
  Bool, ◌&&◌, List, [], ◌∷◌, ◌++◌, ◌==◌, nat_eq, list_eq, if◌then◌else◌, Option, none, ◌⊎◌,
}
use booth_catalog.Text.{Text, txt, split}
use booth_catalog.Asset.Error.{Result}
use booth_catalog.Data.Model.{Time, zero_time}
use booth_catalog.Dashboards.Model.{Source, Upsert}
use booth_catalog.Dashboards.Store.{MemoryStore}
use booth_catalog.Dashboards.Service
use booth_catalog.Events.{Verdict, Payload, Envelope, lifecycle_event, read, verdict_on, settle}

abbrev pub event_created : Text
event_created = txt "dashboard.created"

abbrev pub event_updated : Text
event_updated = txt "dashboard.updated"

abbrev pub event_deleted : Text
event_deleted = txt "dashboard.deleted"

pub record DashboardData : Type 0 where
  pub dashboard_id : Text
  pub name : Text
  pub description : Text
  pub owner : Text
  pub path : Text
  pub lineage_complete : Bool
  pub sources : List Source

-- DashboardCatalog: the state that a call leaves stands beside its answer.
pub record DashboardCatalog (S : Type 0) : Type 0 where
  pub apply : S → Upsert → Result Bool × S
  pub remove : S → Text → Text → Text → Time → Result Bool × S

-- The dashboard service, with the clock and the next asset.NewID.
abbrev pub memory_catalog : Text → Time → DashboardCatalog MemoryStore
memory_catalog new_id now = record {
  apply = λ m u. Service.apply m u new_id now;
  remove =
      λ m ws source_module external_id at. Service.remove m ws source_module external_id at new_id;
}

abbrev pub subject_parts : List Text → Option (Text × Text)
subject_parts (booth ∷ ws ∷ family ∷ verb ∷ []) =
    if booth == txt "booth" && family == txt "dashboard"
    then lifecycle_event event_created event_updated event_deleted ws (txt "dashboard." ++ verb)
    else none
subject_parts _ = none

unfoldable pub parse_subject : Text → Option (Text × Text)
parse_subject subject = subject_parts (split b'.' subject)

-- The service fills in the last two fields.
abbrev pub upsert_of : Text → Envelope → DashboardData → Upsert
upsert_of ws env d = record {
  workspace = ws;
  source_module = env.published_by;
  external_id = d.dashboard_id;
  name = d.name;
  description = d.description;
  owner = d.owner;
  path = d.path;
  lineage_complete = d.lineage_complete;
  sources = d.sources;
  at = env.published_at;
  new_id = [];
  received_at = zero_time;
}

module _ {S : Type 0} (catalog : DashboardCatalog S) where
  abbrev pub call : S → Text → Text → Envelope → DashboardData → Result Bool × S
  call s ws et env d =
      if et == event_deleted
      then catalog.remove s ws env.published_by d.dashboard_id env.published_at
      else catalog.apply s (upsert_of ws env d)

  -- Processor.Handle
  unfoldable pub handle :
      (Payload → Text ⊎ Envelope)
      → (Payload → Text ⊎ DashboardData)
      → S
      → Text
      → Payload
      → Verdict × S
  handle decode_envelope decode_data s subject payload =
      settle verdict_on call s (read decode_data parse_subject decode_envelope subject payload)
