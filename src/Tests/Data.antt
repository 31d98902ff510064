-- ===== src/Tests/Data.antt =====
-- Examples for the dataset catalog of internal/data.
use booth_catalog.Prelude.{
  ℕ, ◌≡◌, ◌≢◌, ◌<◌, ◌↔◌, refl, arith, Bool, true, false, List, [], ◌∷◌, Option, none, some, list_eq,
  nat_eq,
}
use booth_catalog.Prelude.GoMap
use booth_catalog.Text.{Text, txt, text_lt}
use booth_catalog.Text
use booth_catalog.Asset.Actor.{Actor}
use booth_catalog.Asset.Error.{ok, err, not_found}
use booth_catalog.Asset.Location.{Location, no_location}
use booth_catalog.Data.Model.{
  Time, Format, file, Dataset, Column, Input, TableUpsert, PostgresTableUpsert,
}
use booth_catalog.Data.Input.{normalize_schema, normalize_tags}
use booth_catalog.Data.Input
use booth_catalog.Data.Input.Placed.{IsPlaced}
use booth_catalog.Data.Input.Laws.{normalize-IsPlaced}
use booth_catalog.Data.Store.{MemoryStore, new_store, find_table, get, name_taken}
use booth_catalog.Data.Store
use booth_catalog.Data.Store.Events.{apply_table, remove_table, table_row}
use booth_catalog.Data.Store.Kept.{IsWellFormed}
use booth_catalog.Data.Store.Reach.{IsNew, start, step, applies_table, Reachable-IsWellFormed}
use booth_catalog.Data.Store.LastWriter.Shown.{HoldsEvent}
use booth_catalog.Data.Store.LastWriter.{apply_table_shows, removed_stays_removed}
use booth_catalog.Data.Service.{is_managed, delete, create, update, registered, edited}
use booth_catalog.Data.Service
use booth_catalog.Data.Service.Guards.{IsDeletable, delete_iff}
use booth_catalog.Data.Service.Rows.{IsRegistered, IsEdited}
use booth_catalog.Data.Service.Writes.{create-get, update_stores, writes-IsWellFormed}
use booth_catalog.Data.Service.Errors.{Keeps, writes-Keep}
use booth_catalog.Tests.Ascii.{ascii}

abbrev event : Time → TableUpsert
event at = record {
  workspace = txt "w";
  source_module = txt "lake";
  namespace = txt "n";
  name = txt "t";
  uuid = txt "u";
  location = no_location;
  schema = [];
  current_snapshot_id = none;
  at = at;
  new_id = txt "d1";
  received_at = at;
}

abbrev empty-IsWellFormed : IsWellFormed new_store
empty-IsWellFormed = Reachable-IsWellFormed new_store start

abbrev is_id : txt "d1" ≢ []
is_id h = ground arith

abbrev one_table : MemoryStore
one_table = (apply_table new_store (event 5)).1

abbrev d1_is_new : IsNew new_store (txt "w") (txt "d1")
d1_is_new = (unfold GoMap.get in refl, is_id)

Reachable-IsWellFormed_example : IsWellFormed one_table
Reachable-IsWellFormed_example =
    Reachable-IsWellFormed one_table (step start (applies_table (event 5) d1_is_new))

event_is_applied : (apply_table new_store (event 5)).0 ≡ ok true
unfolding apply_table find_table name_taken GoMap.find GoMap.get
event_is_applied = refl

apply_table_shows_example :
    (d : Dataset) × (find_table one_table (txt "w") (txt "lake") (txt "u") ≡ some d)
    × (get one_table (txt "w") d.id ≡ ok d)
    × HoldsEvent (event 5) d
apply_table_shows_example =
    apply_table_shows new_store (event 5) empty-IsWellFormed is_id event_is_applied

table_is_found :
    find_table one_table (txt "w") (txt "lake") (txt "u") ≡ some (table_row (event 5) (txt "d1") 5)
unfolding apply_table find_table name_taken GoMap.find GoMap.get GoMap.put
    booth_catalog.Prelude.list_beq
table_is_found = refl

removal_is_applied :
    (remove_table new_store (txt "w") (txt "lake") (txt "u") 9 (txt "d1")).0 ≡ ok true
unfolding remove_table find_table GoMap.find
removal_is_applied = refl

removed_stays_removed_example :
    (d : Dataset) × (find_table
        (remove_table new_store (txt "w") (txt "lake") (txt "u") 9 (txt "d1")).1
        (txt "w")
        (txt "lake")
        (txt "u")
      ≡ some d)
    × (get (remove_table new_store (txt "w") (txt "lake") (txt "u") 9 (txt "d1")).1 (txt "w") d.id
        ≡ err not_found)
    × (apply_table
          (remove_table new_store (txt "w") (txt "lake") (txt "u") 9 (txt "d1")).1
          (event 5)
        ≡ (ok false, (remove_table new_store (txt "w") (txt "lake") (txt "u") 9 (txt "d1")).1))
removed_stays_removed_example =
    removed_stays_removed new_store (event 5) 9 (txt "d1") empty-IsWellFormed is_id
      removal_is_applied (omega arith)

delete_iff_example :
    ((delete one_table (txt "w") (txt "d1") true).0 ≡ ok tt)
    ↔ ((cur : Dataset) × (get one_table (txt "w") (txt "d1") ≡ ok cur) × IsDeletable cur true)
delete_iff_example = delete_iff one_table (txt "w") (txt "d1") true

abbrev anna : Actor
anna = record { subject = txt "u1"; display_name = txt "anna" }

abbrev column : Column
column = record { name = txt "c"; type = txt "int"; description = []; nullable = false }

abbrev input : Text → Input
input name = record {
  name = name;
  description = [];
  location = record { backend_id = txt "s3"; path = txt "a" };
  schema = column ∷ [];
  tags = txt "b" ∷ txt " A" ∷ txt "B" ∷ [];
  owner = [];
  format = Format.unset;
  postgres_table = none;
}

abbrev canonical : Text → Input
canonical name = record (input name) { tags = txt "a" ∷ txt "b" ∷ []; format = file }

schema_is_accepted : normalize_schema (column ∷ []) ≡ ok (column ∷ [])
unfolding normalize_schema Input.normalize_columns Input.normalize_column Text.trim_space
    booth_catalog.Asset.Validation.text Text.is_control booth_catalog.Prelude.list_beq
schema_is_accepted = refl

input_is_accepted : Input.normalize (input (txt "f")) ≡ ok (canonical (txt "f"))
unfolding Input.normalize normalize_tags Input.collect_tags normalize_schema
    booth_catalog.Asset.Validation.text Text.trim_space Text.is_control
    booth_catalog.Prelude.list_beq booth_catalog.Asset.Location.normalize_location
    booth_catalog.Regexp.matches booth_catalog.Asset.Location.backend_id_re
    booth_catalog.Regexp.up_to Text.byte_len Text.trim_suffix Text.split Input.normalize_columns
    Input.normalize_column Text.to_lower booth_catalog.Prelude.sort_stable text_lt
input_is_accepted = refl

normalize-IsPlaced_example : IsPlaced (input (txt "f")) (canonical (txt "f"))
normalize-IsPlaced_example =
    normalize-IsPlaced (input (txt "f")) (canonical (txt "f")) input_is_accepted

abbrev made : MemoryStore
made = (create new_store (txt "w") anna (input (txt "f")) (txt "d1") 7).1

abbrev row : Dataset
row = registered (txt "d1") (txt "w") anna 7 (canonical (txt "f"))

input_is_created : (create new_store (txt "w") anna (input (txt "f")) (txt "d1") 7).0 ≡ ok row
unfolding create Service.checked_input Input.normalize normalize_tags
    booth_catalog.Asset.Validation.text Text.trim_space Text.is_control
    booth_catalog.Prelude.list_beq booth_catalog.Asset.Location.normalize_location
    booth_catalog.Regexp.matches booth_catalog.Asset.Location.backend_id_re
    booth_catalog.Regexp.up_to Text.byte_len Text.trim_suffix Text.split normalize_schema
    Input.normalize_columns Input.normalize_column Input.collect_tags Text.to_lower
    booth_catalog.Asset.Validation.valid_workspace booth_catalog.Asset.Validation.workspace_re
    Input.normalize_postgres_table Store.create name_taken GoMap.get GoMap.put
    booth_catalog.Prelude.insert_sorted booth_catalog.Prelude.sort_stable
    booth_catalog.Regexp.derivative booth_catalog.Regexp.nullable Text.bytes Text.encode
    Text.is_space Text.itoa text_lt Text.trim_left Text.trim_right
input_is_created = refl

create-get_example :
    (get made (txt "w") (txt "d1") ≡ ok row)
    × ((i' : Input) × (Input.normalize (input (txt "f")) ≡ ok i')
        × IsRegistered (txt "d1") (txt "w") anna 7 i' row)
create-get_example =
    create-get new_store (txt "w") (txt "d1") anna (input (txt "f")) 7 row empty-IsWellFormed
      d1_is_new input_is_created

first_writes-IsWellFormed :
    (IsNew new_store (txt "w") (txt "d1") → IsWellFormed made)
    × IsWellFormed (update new_store (txt "w") (txt "d1") (input (txt "f")) 7).1
first_writes-IsWellFormed =
    writes-IsWellFormed new_store (txt "w") (txt "d1") anna (input (txt "f")) 7 empty-IsWellFormed

abbrev made-IsWellFormed : IsWellFormed made
made-IsWellFormed =
    (writes-IsWellFormed new_store (txt "w") (txt "d1") anna (input (txt "f")) 7
        empty-IsWellFormed).0
      d1_is_new

abbrev changed : Dataset
changed = edited row 8 (canonical (txt "g"))

row_is_updated : (update made (txt "w") (txt "d1") (input (txt "g")) 8).0 ≡ ok changed
unfolding update create Service.checked_input Service.save_edited Input.normalize normalize_tags get
    booth_catalog.Asset.Validation.text Text.trim_space Text.is_control
    booth_catalog.Prelude.list_beq booth_catalog.Asset.Location.normalize_location
    booth_catalog.Regexp.matches booth_catalog.Asset.Location.backend_id_re
    booth_catalog.Regexp.up_to Text.byte_len Text.trim_suffix Text.split normalize_schema
    Input.normalize_columns Input.normalize_column Input.collect_tags Text.to_lower Store.lookup
    booth_catalog.Asset.Validation.valid_workspace booth_catalog.Asset.Validation.workspace_re
    Input.normalize_postgres_table Store.create name_taken Store.update GoMap.get GoMap.put
    booth_catalog.Prelude.insert_sorted booth_catalog.Prelude.sort_stable
    booth_catalog.Regexp.derivative booth_catalog.Regexp.nullable Text.bytes Text.encode
    Text.is_space Text.itoa text_lt Text.trim_left Text.trim_right
row_is_updated = refl

update_stores_example :
    (cur : Dataset) × (get made (txt "w") (txt "d1") ≡ ok cur)
    × (is_managed cur ≡ false)
    × ((i' : Input) × (Input.normalize (input (txt "g")) ≡ ok i') × IsEdited cur 8 i' changed)
    × (get (update made (txt "w") (txt "d1") (input (txt "g")) 8).1 (txt "w") (txt "d1")
        ≡ ok (record changed { source = cur.source }))
update_stores_example =
    update_stores made (txt "w") (txt "d1") (input (txt "g")) 8 changed made-IsWellFormed
      row_is_updated

abbrev discovery : PostgresTableUpsert
discovery = record {
  workspace = txt "w";
  source_module = txt "db";
  schema = txt "s";
  name = txt "t";
  kind = txt "table";
  comment = [];
  columns = [];
  approx_rows = none;
  at = 5;
  new_id = txt "d1";
  received_at = 5;
}

writes-Keep_example :
    Keeps new_store (create new_store (txt "w") anna (input (txt "f")) (txt "d1") 7)
    × Keeps new_store (update new_store (txt "w") (txt "d1") (input (txt "f")) 7)
    × Keeps new_store (delete new_store (txt "w") (txt "d1") true)
writes-Keep_example = writes-Keep new_store (txt "w") (txt "d1") anna (input (txt "f")) 7 true
