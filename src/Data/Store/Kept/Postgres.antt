-- ===== src/Data/Store/Kept/Postgres.antt =====
-- The events of database tables keep the store well formed.
use booth_catalog.Prelude.{
  true, false, [], ltb, nat_eq, list_eq, none, some, ◌≡◌, ◌≢◌, refl, arith, Bool-cases,
  Option-cases, inl, inr,
}
use booth_catalog.Prelude.GoMap
use booth_catalog.Prelude.GoMap.Laws.{find_sound}
use booth_catalog.Text.{Text}
use booth_catalog.Data.Model.{Time, Dataset, PostgresTableUpsert, is_iceberg}
use booth_catalog.Data.Store.{
  MemoryStore, write, is_dead, name_taken, find_postgres_table, is_postgres_table,
}
use booth_catalog.Data.Store.Events.{
  apply_postgres_table, remove_postgres_table, postgres_dataset_name, refreshed, merged,
}
use booth_catalog.Data.Store.Kept.{
  IsWellFormed, write-IsWellFormed, is_live_of_new, name_taken_complete,
}

-- What `findPostgresTable` returns is a row of the store, under its own ID, and no tombstone.
pub find_postgres_table_sound :
    (m : MemoryStore) (ws schema name : Text) (cur : Dataset)
    → IsWellFormed m
    → find_postgres_table m ws schema name ≡ some cur
    → (GoMap.get cur.id (m.by_ws ws) ≡ some cur)
      × (cur.workspace ≡ ws)
      × (is_postgres_table schema name cur ≡ true)
      × (is_dead m ws cur.id ≡ false)
unfolding find_postgres_table
find_postgres_table_sound m ws schema name cur before h =
    elim (Option-cases (GoMap.find (λ id d. is_postgres_table schema name d) (m.by_ws ws))) [
      | inl p ↦ absurd (ground arith)
      | inr ((k, v), p) ↦
          let (g, t) =
            find_sound (λ id d. is_postgres_table schema name d) (m.by_ws ws) k v
              (before ws).distinct p in
          ground (arith, (before ws).keyed k v g, (before ws).buried cur.id)
    ]

-- A row that keeps its identity and its name, and is no table of another module.
write-kept-row :
    (m : MemoryStore) (ws : Text) (cur d : Dataset)
    → IsWellFormed m
    → GoMap.get cur.id (m.by_ws ws) ≡ some cur
    → is_dead m ws cur.id ≡ false
    → d.id ≡ cur.id
    → d.workspace ≡ cur.workspace
    → d.name ≡ cur.name
    → is_iceberg d.format ≡ false
    → IsWellFormed (write ws d m)
write-kept-row m ws cur d before row live same here name fmt =
    write-IsWellFormed m ws d before (ground (arith, (before ws).keyed cur.id cur row))
      (ground (arith, (before ws).no_empty_id)) (rw same live)
      (λ j e h v. ground (arith, (before ws).named cur.id j cur e)) (λ j e sm uuid h. ground arith)

pub apply_postgres_table-IsWellFormed :
    (m : MemoryStore) (u : PostgresTableUpsert)
    → IsWellFormed m
    → GoMap.get u.new_id (m.by_ws u.workspace) ≡ none
    → u.new_id ≢ []
    → IsWellFormed (apply_postgres_table m u).1
unfolding apply_postgres_table
apply_postgres_table-IsWellFormed m u before new has_id =
    elim (Option-cases (find_postgres_table m u.workspace u.schema u.name)) [
      | inl p ↦
          elim (Bool-cases (name_taken m u.workspace (postgres_dataset_name u.schema u.name) [])) [
            | inl q ↦ rw (p, q) before
            | inr q ↦
                rw (p, q)
                  (write-IsWellFormed m u.workspace _ before refl has_id
                    (is_live_of_new m u.workspace u.new_id before new)
                    (λ j e h v.
                      name_taken_complete m u.workspace (postgres_dataset_name u.schema u.name) [] j
                        e q (ground (arith, (before u.workspace).no_empty_id)) v)
                    (λ j e sm uuid h. ground arith))
          ]
      | inr (cur, p) ↦ elim (Bool-cases (ltb u.at cur.updated_at)) [
        | inl q ↦ rw (p, q) before
        | inr q ↦
            let (row, here, is, live) =
              find_postgres_table_sound m u.workspace u.schema u.name cur before p in
            rw (p, q)
              (write-kept-row m u.workspace cur (refreshed u (merged u cur)) before row live
                (ground arith) (ground arith) (ground arith) (ground arith))
      ]
    ]

pub remove_postgres_table-IsWellFormed :
    (m : MemoryStore) (ws schema name : Text) (at : Time) (new_id : Text)
    → IsWellFormed m
    → GoMap.get new_id (m.by_ws ws) ≡ none
    → new_id ≢ []
    → IsWellFormed (remove_postgres_table m ws schema name at new_id).1
unfolding remove_postgres_table
remove_postgres_table-IsWellFormed m ws schema name at new_id before new has_id =
    elim (Option-cases (find_postgres_table m ws schema name)) [
      | inl p ↦ elim (Bool-cases (name_taken m ws (postgres_dataset_name schema name) [])) [
        | inl q ↦ rw (p, q) before
        | inr q ↦
            rw (p, q)
              (write-IsWellFormed m ws _ before refl has_id (is_live_of_new m ws new_id before new)
                (λ j e h v.
                  name_taken_complete m ws (postgres_dataset_name schema name) [] j e q
                    (ground (arith, (before ws).no_empty_id)) v)
                (λ j e sm uuid h. ground arith))
      ]
      | inr (cur, p) ↦ elim (Bool-cases (ltb at cur.updated_at)) [
        | inl q ↦ rw (p, q) before
        | inr q ↦
            let (row, here, is, live) = find_postgres_table_sound m ws schema name cur before p in
            rw (p, q)
              (write-kept-row m ws cur (record cur { missing = true; updated_at = at }) before row
                live refl refl refl (ground arith))
      ]
    ]
