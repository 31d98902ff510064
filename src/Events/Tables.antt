-- ===== src/Events/Tables.antt =====
-- internal/events/tables.go: the events of Iceberg tables, applied to the dataset catalog.
use booth_catalog.Prelude.{
  Bool, ◌&&◌, List, [], ◌∷◌, ◌++◌, ◌==◌, nat_eq, list_eq, if◌then◌else◌, Option, none, ◌⊎◌, ℤ,
}
use booth_catalog.Text.{Text, txt, split}
use booth_catalog.Asset.Error.{Result}
use booth_catalog.Asset.Location.{Location}
use booth_catalog.Data.Model.{Time, zero_time, Column, TableUpsert}
use booth_catalog.Data.Store.{MemoryStore}
use booth_catalog.Data.Service
use booth_catalog.Events.{
  Verdict, Payload, Envelope, lifecycle_event, read, table_verdict_on, settle,
}

abbrev pub event_created : Text
event_created = txt "table.created"

abbrev pub event_updated : Text
event_updated = txt "table.updated"

abbrev pub event_deleted : Text
event_deleted = txt "table.deleted"

pub record TableCatalog (S : Type 0) : Type 0 where
  pub apply_table : S → TableUpsert → Result Bool × S
  pub remove_table : S → Text → Text → Text → Time → Result Bool × S

pub record TableData : Type 0 where
  pub namespace : Text
  pub name : Text
  pub table_uuid : Text
  pub location : Location
  pub schema : List Column
  pub current_snapshot_id : Option ℤ

-- The dataset service, with the clock and the next asset.NewID.
abbrev pub memory_catalog : Text → Time → TableCatalog MemoryStore
memory_catalog new_id now = record {
  apply_table = λ m u. Service.apply_table m u new_id now;
  remove_table =
      λ m ws source_module uuid at. Service.remove_table m ws source_module uuid at new_id;
}

abbrev pub subject_parts : List Text → Option (Text × Text)
subject_parts (booth ∷ ws ∷ family ∷ verb ∷ []) =
    if booth == txt "booth" && family == txt "table"
    then lifecycle_event event_created event_updated event_deleted ws (txt "table." ++ verb)
    else none
subject_parts _ = none

unfoldable pub parse_table_subject : Text → Option (Text × Text)
parse_table_subject subject = subject_parts (split b'.' subject)

abbrev pub upsert_of : Text → Envelope → TableData → TableUpsert
upsert_of ws env d = record {
  workspace = ws;
  source_module = env.published_by;
  namespace = d.namespace;
  name = d.name;
  uuid = d.table_uuid;
  location = d.location;
  schema = d.schema;
  current_snapshot_id = d.current_snapshot_id;
  at = env.published_at;
  new_id = [];
  received_at = zero_time;
}

module _ {S : Type 0} (catalog : TableCatalog S) where
  abbrev pub call : S → Text → Text → Envelope → TableData → Result Bool × S
  call s ws et env d =
      if et == event_deleted
      then catalog.remove_table s ws env.published_by d.table_uuid env.published_at
      else catalog.apply_table s (upsert_of ws env d)

  -- TableProcessor.Handle
  unfoldable pub handle :
      (Payload → Text ⊎ Envelope) → (Payload → Text ⊎ TableData) → S → Text → Payload → Verdict × S
  handle decode_envelope decode_data s subject payload =
      settle table_verdict_on call s
        (read decode_data parse_table_subject decode_envelope subject payload)
