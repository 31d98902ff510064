-- ===== src/Tests/Events.antt =====
-- Examples for internal/events.
use booth_catalog.Prelude.{
  ℕ, zero, suc, ◌≡◌, ◌≤◌, ◌⊎◌, ◌↔◌, inl, inr, refl, Bool, true, false, List, [], ◌∷◌, Option, none,
  some, list_eq, nat_eq, ◌==◌, arith, eq_iff, Bool-cases, All, if◌then◌else◌, ◌*◌, ◌-◌, pos, ◌++◌,
  sym, ap, subst, ◌∙◌,
}
use booth_catalog.Prelude
use booth_catalog.Prelude.GoMap
use booth_catalog.Text.{Text, txt}
use booth_catalog.Text
use booth_catalog.Asset.Validation.{valid_workspace}
use booth_catalog.Dashboards.Store.{MemoryStore, new_store}
use booth_catalog.Dashboards.Store
use booth_catalog.Dashboards.Store.Register.{Event, register}
use booth_catalog.Data.Store as DataStore
use booth_catalog.Dashboards.Service
use booth_catalog.Events.{Payload, Envelope, read}
use booth_catalog.Events.Subjects.{subject_of, IsOneOf, parse_subject_iff}
use booth_catalog.Events.Verdicts.{IsExact, handle_applied_iff}
use booth_catalog.Events.Final.{IsFinal, IsAcknowledged, IsTableAcknowledged, handle-IsFinal}
use booth_catalog.Events.Convergence.{Message, Has, Run, done, next, said, IsOrdered, Run-agree}
use booth_catalog.Events.Registers.{IsFresh, Said}
use booth_catalog.Events.Dashboards.{DashboardData, memory_catalog, parse_subject}
use booth_catalog.Events.Dashboards
use booth_catalog.Events.Tables.{TableData, parse_table_subject}
use booth_catalog.Events.Tables
use booth_catalog.Events.DatabaseTables.{DatabaseTableData, parse_database_table_subject}
use booth_catalog.Events.DatabaseTables

abbrev created : Text
created = txt "booth.w.dashboard.created"

abbrev deleted : Text
deleted = txt "booth.w.dashboard.deleted"

-- The payload is one byte here: 1 for the creation, 2 for the deletion that follows it.
abbrev envelope : Payload → Text ⊎ Envelope
envelope (n ∷ []) = inr (record {
  workspace = txt "w";
  event_type = if n == 1 then txt "dashboard.created" else txt "dashboard.deleted";
  published_at = n * 4000;
  published_by = txt "superset";
  payload = [];
})
envelope _ = inl (txt "unexpected end of JSON input")

abbrev board : DashboardData
board = record {
  dashboard_id = txt "1";
  name = txt "n";
  description = [];
  owner = [];
  path = [];
  lineage_complete = true;
  sources = [];
}

abbrev dashboard : Payload → Text ⊎ DashboardData
dashboard p = inr board

abbrev table : Payload → Text ⊎ TableData
table p = inl (txt "no table")

abbrev database_table : Payload → Text ⊎ DatabaseTableData
database_table p = inl (txt "no table")

w_is_valid : valid_workspace (txt "w") ≡ true
unfolding valid_workspace booth_catalog.Regexp.matches booth_catalog.Regexp.up_to
w_is_valid = refl

parse_subject_iff_example :
    ((parse_subject created ≡ some (txt "w", txt "dashboard.created")) ↔ (
      (created ≡ subject_of (txt "w") (txt "dashboard.created"))
      × IsOneOf
          (txt "dashboard.created")
          (txt "dashboard.updated")
          (txt "dashboard.deleted")
          (txt "dashboard.created")))
    × ((parse_table_subject created ≡ some (txt "w", txt "dashboard.created")) ↔ (
        (created ≡ subject_of (txt "w") (txt "dashboard.created"))
        × IsOneOf
            (txt "table.created")
            (txt "table.updated")
            (txt "table.deleted")
            (txt "dashboard.created")))
    × ((parse_database_table_subject created ≡ some (txt "w", txt "dashboard.created")) ↔ (
        (created ≡ subject_of (txt "w") (txt "dashboard.created"))
        × IsOneOf
            (txt "database.table.created")
            (txt "database.table.updated")
            (txt "database.table.deleted")
            (txt "dashboard.created")))
unfolding valid_workspace booth_catalog.Regexp.matches booth_catalog.Regexp.up_to
parse_subject_iff_example = parse_subject_iff created (txt "w") (txt "dashboard.created") w_is_valid

abbrev creation : Message
creation = (created, 1 ∷ [])

abbrev removal : Message
removal = (deleted, 2 ∷ [])

abbrev event_of : ℕ → Event
event_of t = if t == 4000 then (4000, some (txt "n", [], [], [], true, [])) else (8000, none)

creation_says :
    said envelope dashboard creation ≡ some (txt "w", txt "superset", txt "1", event_of 4000)
unfolding Dashboards.handle read parse_subject Text.split Prelude.list_beq valid_workspace
    booth_catalog.Regexp.matches booth_catalog.Regexp.up_to Service.apply Service.remove
    booth_catalog.Dashboards.Model.normalize booth_catalog.Data.Upsert.module_re
    booth_catalog.Asset.Validation.text Text.trim_space Text.is_control
    booth_catalog.Dashboards.Model.normalize_path booth_catalog.Dashboards.Model.keep_sources
    booth_catalog.Regexp.derivative booth_catalog.Regexp.nullable Text.byte_len Text.bytes
    Text.encode Text.has_prefix Text.is_space Text.trim_left Text.trim_right
creation_says = refl

removal_says :
    said envelope dashboard removal ≡ some (txt "w", txt "superset", txt "1", event_of 8000)
unfolding Dashboards.handle read parse_subject Text.split Prelude.list_beq valid_workspace
    booth_catalog.Regexp.matches booth_catalog.Regexp.up_to Service.apply Service.remove
    booth_catalog.Dashboards.Model.normalize booth_catalog.Data.Upsert.module_re
    booth_catalog.Asset.Validation.text Text.trim_space Text.is_control
    booth_catalog.Dashboards.Model.normalize_path booth_catalog.Dashboards.Model.keep_sources
    booth_catalog.Regexp.derivative booth_catalog.Regexp.nullable Text.byte_len Text.bytes
    Text.encode Text.has_prefix Text.is_space Text.trim_left Text.trim_right
removal_says = refl

abbrev after : Text → Message → MemoryStore → MemoryStore
after id a m = (Dashboards.handle (memory_catalog id 9) envelope dashboard m a.0 a.1).1

is_fresh : IsFresh (txt "b") (after (txt "a") creation new_store)
unfolding Dashboards.handle read parse_subject Text.split Prelude.list_beq valid_workspace
    booth_catalog.Regexp.matches booth_catalog.Regexp.up_to Service.apply Service.remove
    booth_catalog.Dashboards.Model.normalize booth_catalog.Data.Upsert.module_re
    booth_catalog.Asset.Validation.text Text.trim_space Text.is_control
    booth_catalog.Dashboards.Model.normalize_path booth_catalog.Dashboards.Model.keep_sources
    booth_catalog.Regexp.derivative booth_catalog.Regexp.nullable Text.byte_len Text.bytes
    Text.encode Text.has_prefix Text.is_space Text.trim_left Text.trim_right Store.apply
    Store.remove Store.find GoMap.find GoMap.get GoMap.put GoMap.delete
is_fresh ws = elim (Bool-cases (txt "w" == ws)) [ inl p ↦ rw p refl | inr p ↦ rw p refl ]

is_fresh' : IsFresh (txt "b") (after (txt "a") removal new_store)
unfolding Dashboards.handle read parse_subject Text.split Prelude.list_beq valid_workspace
    booth_catalog.Regexp.matches booth_catalog.Regexp.up_to Service.apply Service.remove
    booth_catalog.Dashboards.Model.normalize booth_catalog.Data.Upsert.module_re
    booth_catalog.Asset.Validation.text Text.trim_space Text.is_control
    booth_catalog.Dashboards.Model.normalize_path booth_catalog.Dashboards.Model.keep_sources
    booth_catalog.Regexp.derivative booth_catalog.Regexp.nullable Text.byte_len Text.bytes
    Text.encode Text.has_prefix Text.is_space Text.trim_left Text.trim_right Store.apply
    Store.remove Store.find GoMap.find GoMap.get GoMap.put GoMap.delete
is_fresh' ws = elim (Bool-cases (txt "w" == ws)) [ inl p ↦ rw p refl | inr p ↦ rw p refl ]

is_new : (id : Text) → IsFresh id new_store
unfolding GoMap.get
is_new id ws = refl

abbrev messages : List Message
messages = creation ∷ removal ∷ []

same_event :
    (said said' : Text × Text × Text) (e f : Event)
    → ◌≡◌ {A = Option Said} (some (said.0, said.1, said.2, e)) (some (said'.0, said'.1, said'.2, f))
    → e ≡ f
same_event said said' e f h = ground arith

says_of :
    (a : Message) (ws sm ext : Text) (e : Event)
    → Has a messages
    → said envelope dashboard a ≡ some (ws, sm, ext, e)
    → e ≡ event_of e.0
says_of a ws sm ext e (inl p) h =
    let q =
      same_event (txt "w", txt "superset", txt "1") (ws, sm, ext) (event_of 4000) e
        (sym creation_says ∙ ap (said envelope dashboard) (sym p) ∙ h) in
    subst (λ x. x ≡ event_of x.0) q refl
says_of a ws sm ext e (inr (inl p)) h =
    let q =
      same_event (txt "w", txt "superset", txt "1") (ws, sm, ext) (event_of 8000) e
        (sym removal_says ∙ ap (said envelope dashboard) (sym p) ∙ h) in
    subst (λ x. x ≡ event_of x.0) q refl
says_of a ws sm ext e (inr (inr p)) h = absurd p

messages-IsOrdered : IsOrdered envelope dashboard messages
messages-IsOrdered a b ws sm ext e f has has' says says' same =
    says_of a ws sm ext e has says ∙ ap event_of same ∙ sym (says_of b ws sm ext f has' says')

abbrev after_both : Message → Message → MemoryStore
after_both a b = after (txt "b") b (after (txt "a") a new_store)

in_order : Run envelope dashboard messages new_store (after_both creation removal)
in_order = next creation (txt "a") 9 (is_new (txt "a")) (next removal (txt "b") 9 is_fresh done)

reversed : Run envelope dashboard (removal ∷ creation ∷ []) new_store (after_both removal creation)
reversed = next removal (txt "a") 9 (is_new (txt "a")) (next creation (txt "b") 9 is_fresh' done)

same_messages : (a : Message) → Has a messages ↔ Has a (removal ∷ creation ∷ [])
same_messages a = (swap creation removal, swap removal creation)
  where
    swap : (b c : Message) → Has a (b ∷ c ∷ []) → Has a (c ∷ b ∷ [])
    swap b c (inl p) = inr (inl p)
    swap b c (inr (inl p)) = inl p
    swap b c (inr (inr p)) = absurd p

Run-agree_example :
    register (after_both creation removal) (txt "w") (txt "superset") (txt "1")
    ≡ register (after_both removal creation) (txt "w") (txt "superset") (txt "1")
Run-agree_example =
    Run-agree envelope dashboard messages (removal ∷ creation ∷ []) (after_both creation removal)
      (after_both removal creation) in_order reversed same_messages messages-IsOrdered (txt "w")
      (txt "superset") (txt "1")

abbrev datasets : DataStore.MemoryStore
datasets = DataStore.new_store

abbrev on_boards : Dashboards.DashboardCatalog MemoryStore
on_boards = memory_catalog (txt "a") 9

abbrev on_tables : Tables.TableCatalog DataStore.MemoryStore
on_tables = Tables.memory_catalog (txt "a") 9

abbrev on_database_tables : DatabaseTables.DatabaseTableCatalog DataStore.MemoryStore
on_database_tables = DatabaseTables.memory_catalog (txt "a") 9

handle_applied_iff_example :
    IsExact
      (Dashboards.handle on_boards envelope dashboard new_store created (1 ∷ []))
      dashboard
      parse_subject
      envelope
      (Dashboards.call on_boards)
      new_store
      created
      (1 ∷ [])
      (after (txt "a") creation new_store)
    × IsExact
        (Tables.handle on_tables envelope table datasets created (1 ∷ []))
        table
        parse_table_subject
        envelope
        (Tables.call on_tables)
        datasets
        created
        (1 ∷ [])
        datasets
    × IsExact
        (DatabaseTables.handle on_database_tables envelope database_table datasets created (1 ∷ []))
        database_table
        parse_database_table_subject
        envelope
        (DatabaseTables.call on_database_tables)
        datasets
        created
        (1 ∷ [])
        datasets
handle_applied_iff_example =
    handle_applied_iff on_boards on_tables on_database_tables envelope dashboard table
      database_table new_store (after (txt "a") creation new_store) datasets datasets created
      (1 ∷ [])

handle-IsFinal_example :
    IsFinal IsAcknowledged
      (λ s id now. Dashboards.handle (memory_catalog id now) envelope dashboard s created (1 ∷ []))
    × IsFinal IsTableAcknowledged
        (λ s id now. Tables.handle (Tables.memory_catalog id now) envelope table s created (1 ∷ []))
    × IsFinal IsTableAcknowledged (λ s id now.
      DatabaseTables.handle
        (DatabaseTables.memory_catalog id now)
        envelope
        database_table
        s
        created
        (1 ∷ []))
handle-IsFinal_example = handle-IsFinal envelope dashboard table database_table created (1 ∷ [])
