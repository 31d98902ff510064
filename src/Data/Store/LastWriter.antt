-- ===== src/Data/Store/LastWriter.antt =====
-- The events of one table, in whatever order they arrive (internal/data/memory.go: ApplyTable and
-- RemoveTable).
pub mod Shown
use booth_catalog.Prelude.{
  true, false, [], ltb, ◌<◌, eq_refl, nat_eq, list_eq, some, ◌≡◌, ◌≢◌, refl, sym, subst, ap, arith,
  Bool-cases, Option-cases, inl, inr,
}
use booth_catalog.Prelude.GoMap
use booth_catalog.Prelude.GoMap.Laws.{get-put, get-delete}
use booth_catalog.Text.{Text}
use booth_catalog.Asset.Error.{ok, err, not_found}
use booth_catalog.Data.Model.{Time, Dataset, TableUpsert}
use booth_catalog.Data.Store.{MemoryStore, is_dead, lookup, name_taken, find_table, is_table, get}
use booth_catalog.Data.Store.Events.{
  apply_table, remove_table, dataset_name, table_row, is_stale, id_or, created_or, removed_blank,
}
use booth_catalog.Data.Store.Find.{find_table_sound, find_table_complete}
use booth_catalog.Data.Store.LastWriter.Shown.{HoldsEvent, table_row-HoldsEvent}
use booth_catalog.Data.Store.Kept.{IsWellFormed, at_ws-here}
use booth_catalog.Data.Store.Kept.Table.{apply_table-IsWellFormed, remove_table-IsWellFormed}

-- A row of the store that is a table is the one that `findTable` returns.
find_table_of_get :
    (m : MemoryStore) (ws sm uuid id : Text) (d : Dataset)
    → IsWellFormed m
    → GoMap.get id (m.by_ws ws) ≡ some d
    → is_table sm uuid d ≡ true
    → find_table m ws sm uuid ≡ some d
find_table_of_get m ws sm uuid id d before g t = elim (Option-cases (find_table m ws sm uuid)) [
  | inl p ↦ absurd (ground (arith, find_table_complete m ws sm uuid id d p g))
  | inr (cur, p) ↦
      let (row, _, is) = find_table_sound m ws sm uuid cur before p in
      ground (arith, (before ws).identified cur.id id cur d sm uuid row g is t)
]

-- The row that an applied event leaves, under the ID it wrote.
applied_row :
    (m : MemoryStore) (u : TableUpsert)
    → (apply_table m u).0 ≡ ok true
    → (d : Dataset) × (GoMap.get d.id ((apply_table m u).1.by_ws u.workspace) ≡ some d)
      × (is_dead (apply_table m u).1 u.workspace d.id ≡ false)
      × (d ≡ table_row u d.id d.created_at)
unfolding apply_table
applied_row m u h =
    let ws = u.workspace in
    let cur = find_table m ws u.source_module u.uuid in
    let id = id_or cur u.new_id in
    elim (Bool-cases (is_stale cur u.at)) [
      | inl p ↦ absurd (ground arith)
      | inr p ↦ elim (Bool-cases (name_taken m ws (dataset_name u) (id_or cur []))) [
        | inl q ↦ absurd (ground arith)
        | inr q ↦ elim (Bool-cases (is_dead m ws id)) [
          | inl r ↦
              rw (p, q, r)
                (
                  table_row u id u.received_at,
                  ground (
                    arith,
                    at_ws-here ws (GoMap.put id (table_row u id u.received_at) (m.by_ws ws))
                        m.by_ws,
                    get-put id id (table_row u id u.received_at) (m.by_ws ws),
                    eq_refl id,
                  ),
                  ground (
                    arith,
                    at_ws-here ws (GoMap.delete id (m.tombstoned ws)) m.tombstoned,
                    get-delete id id (m.tombstoned ws),
                    eq_refl id,
                  ),
                  refl,
                )
          | inr r ↦
              rw (p, q, r)
                (
                  table_row u id (created_or cur u.received_at),
                  ground (
                    arith,
                    at_ws-here ws
                        (GoMap.put id (table_row u id (created_or cur u.received_at)) (m.by_ws ws))
                        m.by_ws,
                    get-put id id (table_row u id (created_or cur u.received_at)) (m.by_ws ws),
                    eq_refl id,
                  ),
                  r,
                  refl,
                )
        ]
      ]
    ]

-- An event that ApplyTable applied to a well-formed store, with a drawn ID that is not empty, is what the
-- store now says of the table: there is a row that `findTable` returns and that Get returns too; it holds
-- each field of the event, under the name <namespace>.<name>, and is blank in every other field but its
-- ID and its creation time.
pub apply_table_shows :
    (m : MemoryStore) (u : TableUpsert)
    → IsWellFormed m
    → u.new_id ≢ []
    → (apply_table m u).0 ≡ ok true
    → (d : Dataset) × (find_table (apply_table m u).1 u.workspace u.source_module u.uuid ≡ some d)
      × (get (apply_table m u).1 u.workspace d.id ≡ ok d)
      × HoldsEvent u d
unfolding get lookup
apply_table_shows m u before has_id h =
    let (d, row, live, is) = applied_row m u h in
    let t = ap (λ x. is_table u.source_module u.uuid x) is in
    (
      d,
      find_table_of_get (apply_table m u).1 u.workspace u.source_module u.uuid d.id d
          (apply_table-IsWellFormed m u before has_id) row
          (ground (arith, eq_refl u.source_module, eq_refl u.uuid)),
      ground arith,
      subst (HoldsEvent u) (sym is) (table_row-HoldsEvent u d.id d.created_at),
    )

-- Where the store holds a row for a table, visible or not, an event that is older than what was
-- last applied to the row changes nothing, and ApplyTable and RemoveTable answer that it is stale.
pub older_is_stale :
    (m : MemoryStore) (u : TableUpsert) (cur : Dataset) (new_id : Text)
    → find_table m u.workspace u.source_module u.uuid ≡ some cur
    → u.at < cur.updated_at
    → (apply_table m u ≡ (ok false, m))
      × (remove_table m u.workspace u.source_module u.uuid u.at new_id ≡ (ok false, m))
unfolding apply_table remove_table
older_is_stale m u cur new_id h older = rw h (ground arith)

-- The row that an applied removal leaves.
removed_row :
    (m : MemoryStore) (ws sm uuid : Text) (at : Time) (new_id : Text)
    → IsWellFormed m
    → (remove_table m ws sm uuid at new_id).0 ≡ ok true
    → (d : Dataset) × (GoMap.get d.id ((remove_table m ws sm uuid at new_id).1.by_ws ws) ≡ some d)
      × (is_dead (remove_table m ws sm uuid at new_id).1 ws d.id ≡ true)
      × (is_table sm uuid d ≡ true)
      × (d.updated_at ≡ at)
unfolding remove_table
removed_row m ws sm uuid at new_id before h = elim (Option-cases (find_table m ws sm uuid)) [
  | inl p ↦
      let d = removed_blank ws sm uuid at new_id in
      rw p (
        d,
        ground (
          arith,
          at_ws-here ws (GoMap.put new_id d (m.by_ws ws)) m.by_ws,
          get-put new_id new_id d (m.by_ws ws),
          eq_refl new_id,
        ),
        ground (
          arith,
          at_ws-here ws (GoMap.put new_id true (m.tombstoned ws)) m.tombstoned,
          get-put new_id new_id true (m.tombstoned ws),
          eq_refl new_id,
        ),
        ground (arith, eq_refl sm, eq_refl uuid),
        refl,
      )
  | inr (cur, p) ↦ elim (Bool-cases (ltb at cur.updated_at)) [
    | inl q ↦ absurd (ground arith)
    | inr q ↦
        let d = record cur { updated_at = at } in
        let (row, _, is) = find_table_sound m ws sm uuid cur before p in
        rw (p, q)
          (
            d,
            ground (
              arith,
              at_ws-here ws (GoMap.put cur.id d (m.by_ws ws)) m.by_ws,
              get-put cur.id cur.id d (m.by_ws ws),
              eq_refl cur.id,
            ),
            ground (
              arith,
              at_ws-here ws (GoMap.put cur.id true (m.tombstoned ws)) m.tombstoned,
              get-put cur.id cur.id true (m.tombstoned ws),
              eq_refl cur.id,
            ),
            is,
            refl,
          )
  ]
]

-- After a table.deleted event that RemoveTable applied to a well-formed store, the table's row is a
-- tombstone, which Get does not find, and an event of the table that is older than the deletion
-- cannot bring it back: ApplyTable answers that it is stale and changes nothing. The drawn ID is not empty.
pub removed_stays_removed :
    (m : MemoryStore) (u : TableUpsert) (at : Time) (new_id : Text)
    → IsWellFormed m
    → new_id ≢ []
    → (remove_table m u.workspace u.source_module u.uuid at new_id).0 ≡ ok true
    → u.at < at
    → (d : Dataset) × (find_table
          (remove_table m u.workspace u.source_module u.uuid at new_id).1
          u.workspace
          u.source_module
          u.uuid
        ≡ some d)
      × (get (remove_table m u.workspace u.source_module u.uuid at new_id).1 u.workspace d.id
          ≡ err not_found)
      × (apply_table (remove_table m u.workspace u.source_module u.uuid at new_id).1 u
          ≡ (ok false, (remove_table m u.workspace u.source_module u.uuid at new_id).1))
unfolding get lookup
removed_stays_removed m u at new_id before has_id h older =
    let m' = (remove_table m u.workspace u.source_module u.uuid at new_id).1 in
    let (d, row, dead, is, time) =
      removed_row m u.workspace u.source_module u.uuid at new_id before h in
    let found =
      find_table_of_get m' u.workspace u.source_module u.uuid d.id d
        (remove_table-IsWellFormed m u.workspace u.source_module u.uuid at new_id before has_id) row
        is in
    (d, found, ground arith, (older_is_stale m' u d new_id found (rw time older)).0)
