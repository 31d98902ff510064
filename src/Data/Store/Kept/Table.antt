-- ===== src/Data/Store/Kept/Table.antt =====
-- The events of the tables of other modules keep the store well formed.
use booth_catalog.Prelude.{
  true, [], ltb, eq_iff, eq_refl, nat_eq, list_eq, some, ◌≡◌, ◌≢◌, refl, arith, Bool-cases,
  Option-cases, inl, inr,
}
use booth_catalog.Prelude.GoMap
use booth_catalog.Prelude.GoMap.Laws.{get-put, get-delete}
use booth_catalog.Text.{Text}
use booth_catalog.Data.Model.{Time, Dataset, TableUpsert, iceberg}
use booth_catalog.Data.Store.{
  MemoryStore, write, bury, revive, is_dead, name_taken, find_table, is_table,
}
use booth_catalog.Data.Store.Events.{
  apply_table, remove_table, dataset_name, table_row, is_stale, id_or,
}
use booth_catalog.Data.Store.Invariant.{visible, write-IsConsistent}
use booth_catalog.Data.Store.Kept.{
  IsWellFormed, IsWellFormed_of_one, at_ws-here, at_ws-there, write-IsWellFormed,
}
use booth_catalog.Data.Store.Find.{
  find_table_sound, find_table_complete, is_table-iceberg, id_or-alone, id_or-has_id, id_or-free,
}

-- A row that is written with its tombstone taken off.
write-revived :
    (m : MemoryStore) (ws : Text) (d : Dataset)
    → IsWellFormed m
    → d.workspace ≡ ws
    → d.id ≢ []
    → ((j : Text) (e : Dataset)
        → d.id ≢ j
        → visible (m.by_ws ws) (m.tombstoned ws) j ≡ some e
        → e.name ≢ d.name)
    → ((j : Text) (e : Dataset) (source_module uuid : Text)
        → is_table source_module uuid d ≡ true
        → GoMap.get j (m.by_ws ws) ≡ some e
        → is_table source_module uuid e ≡ true
        → d.id ≡ j)
    → IsWellFormed (write ws d (revive ws d.id m))
write-revived m ws d before here has_id free alone =
    IsWellFormed_of_one ws m (write ws d (revive ws d.id m)) before
      (rw
        (
          at_ws-here ws (GoMap.put d.id d (m.by_ws ws)) m.by_ws,
          at_ws-here ws (GoMap.delete d.id (m.tombstoned ws)) m.tombstoned,
        )
        (write-IsConsistent ws (m.by_ws ws) (m.tombstoned ws) (GoMap.delete d.id (m.tombstoned ws))
          d (before ws) here has_id
          (λ j h. ground (arith, get-delete d.id j (m.tombstoned ws), eq_iff d.id j))
          (λ h. absurd (ground (arith, get-delete d.id d.id (m.tombstoned ws), eq_refl d.id)))
          (λ j e _. free j e) alone))
      (λ w h. (at_ws-there ws w _ m.by_ws h, at_ws-there ws w _ m.tombstoned h))

-- A row that is written with a tombstone on it.
write-buried :
    (m : MemoryStore) (ws : Text) (d : Dataset)
    → IsWellFormed m
    → d.workspace ≡ ws
    → d.id ≢ []
    → d.format ≡ iceberg
    → ((j : Text) (e : Dataset) (source_module uuid : Text)
        → is_table source_module uuid d ≡ true
        → GoMap.get j (m.by_ws ws) ≡ some e
        → is_table source_module uuid e ≡ true
        → d.id ≡ j)
    → IsWellFormed (bury ws d.id (write ws d m))
write-buried m ws d before here has_id fmt alone =
    IsWellFormed_of_one ws m (bury ws d.id (write ws d m)) before
      (rw
        (
          at_ws-here ws (GoMap.put d.id d (m.by_ws ws)) m.by_ws,
          at_ws-here ws (GoMap.put d.id true (m.tombstoned ws)) m.tombstoned,
        )
        (write-IsConsistent ws (m.by_ws ws) (m.tombstoned ws)
          (GoMap.put d.id true (m.tombstoned ws)) d (before ws) here has_id
          (λ j h. ground (arith, get-put d.id j true (m.tombstoned ws), eq_iff d.id j)) (λ h. fmt)
          (λ j e h. absurd (ground (arith, get-put d.id d.id true (m.tombstoned ws), eq_refl d.id)))
          alone))
      (λ w h. (at_ws-there ws w _ m.by_ws h, at_ws-there ws w _ m.tombstoned h))

table_row-alone :
    (m : MemoryStore) (u : TableUpsert) (id : Text) (created : Time) (j : Text) (e : Dataset)
    (sm uuid : Text)
    → IsWellFormed m
    → is_table sm uuid (table_row u id created) ≡ true
    → GoMap.get j (m.by_ws u.workspace) ≡ some e
    → is_table sm uuid e ≡ true
    → id_or (find_table m u.workspace u.source_module u.uuid) u.new_id ≡ j
table_row-alone m u id created j e sm uuid before h g t =
    let p = (eq_iff u.source_module sm).0 (ground arith) in
    let q = (eq_iff u.uuid uuid).0 (ground arith) in
    id_or-alone m u.workspace u.source_module u.uuid u.new_id j e before g (rw (p, q) t)

pub apply_table-IsWellFormed :
    (m : MemoryStore) (u : TableUpsert)
    → IsWellFormed m
    → u.new_id ≢ []
    → IsWellFormed (apply_table m u).1
unfolding apply_table
apply_table-IsWellFormed m u before has_id =
    let ws = u.workspace in
    let cur = find_table m ws u.source_module u.uuid in
    let has = id_or-has_id m ws u.source_module u.uuid u.new_id before has_id in
    elim (Bool-cases (is_stale cur u.at)) [
      | inl p ↦ rw p before
      | inr p ↦ elim (Bool-cases (name_taken m ws (dataset_name u) (id_or cur []))) [
        | inl q ↦ rw (p, q) before
        | inr q ↦
            let free = id_or-free m ws u.source_module u.uuid u.new_id (dataset_name u) before q in
            elim (Bool-cases (is_dead m ws (id_or cur u.new_id))) [
              | inl r ↦
                  rw (p, q, r)
                    (write-revived m ws _ before refl has free
                      (λ j e sm uuid. table_row-alone m u u.new_id u.at j e sm uuid before))
              | inr r ↦
                  rw (p, q, r)
                    (write-IsWellFormed m ws _ before refl has r free
                      (λ j e sm uuid. table_row-alone m u u.new_id u.at j e sm uuid before))
            ]
      ]
    ]

pub remove_table-IsWellFormed :
    (m : MemoryStore) (ws sm uuid : Text) (at : Time) (new_id : Text)
    → IsWellFormed m
    → new_id ≢ []
    → IsWellFormed (remove_table m ws sm uuid at new_id).1
unfolding remove_table
remove_table-IsWellFormed m ws sm uuid at new_id before has_id =
    elim (Option-cases (find_table m ws sm uuid)) [
      | inl p ↦ rw p (
          write-buried m ws _ before refl has_id refl (λ j e sm' uuid' h g t. absurd (
            ground
              (arith, eq_iff sm sm', eq_iff uuid uuid', find_table_complete m ws sm uuid j e p g))))
      | inr (cur, p) ↦
          let (row, here, is) = find_table_sound m ws sm uuid cur before p in
          elim (Bool-cases (ltb at cur.updated_at)) [
            | inl q ↦ rw (p, q) before
            | inr q ↦
                rw (p, q)
                  (write-buried m ws (record cur { updated_at = at }) before here
                    (ground (arith, (before ws).no_empty_id)) (is_table-iceberg sm uuid cur is)
                    (λ j e sm' uuid' h g t.
                      (before ws).identified cur.id j cur e sm' uuid' row g h t))
          ]
    ]
