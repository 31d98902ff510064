-- ===== src/Data/Store/Find.antt =====
-- `findTable` of internal/data/memory.go: the row it returns, and what its ID promises a write.
use booth_catalog.Prelude.{
  true, false, [], nat_eq, list_eq, none, some, ◌≡◌, ◌≢◌, arith, Option-cases, inl, inr,
}
use booth_catalog.Prelude.GoMap
use booth_catalog.Prelude.GoMap.Laws.{find_sound, find_complete}
use booth_catalog.Text.{Text}
use booth_catalog.Data.Model.{Dataset, iceberg}
use booth_catalog.Data.Store.{MemoryStore, name_taken, find_table, is_table}
use booth_catalog.Data.Store.Events.{id_or}
use booth_catalog.Data.Store.Invariant.{visible}
use booth_catalog.Data.Store.Kept.{IsWellFormed, name_taken_complete}

-- What `findTable` returns is a row of the store, under its own ID.
pub find_table_sound :
    (m : MemoryStore) (ws source_module uuid : Text) (cur : Dataset)
    → IsWellFormed m
    → find_table m ws source_module uuid ≡ some cur
    → (GoMap.get cur.id (m.by_ws ws) ≡ some cur)
      × (cur.workspace ≡ ws)
      × (is_table source_module uuid cur ≡ true)
unfolding find_table
find_table_sound m ws sm uuid cur before h =
    elim (Option-cases (GoMap.find (λ id d. is_table sm uuid d) (m.by_ws ws))) [
      | inl p ↦ absurd (ground arith)
      | inr ((k, v), p) ↦
          let (g, t) =
            find_sound (λ id d. is_table sm uuid d) (m.by_ws ws) k v (before ws).distinct p in
          ground (arith, (before ws).keyed k v g)
    ]

-- Where it returns nil, no row is that table.
pub find_table_complete :
    (m : MemoryStore) (ws source_module uuid id : Text) (d : Dataset)
    → find_table m ws source_module uuid ≡ none
    → GoMap.get id (m.by_ws ws) ≡ some d
    → is_table source_module uuid d ≡ false
unfolding find_table
find_table_complete m ws sm uuid id d h g =
    elim (Option-cases (GoMap.find (λ id d. is_table sm uuid d) (m.by_ws ws))) [
      | inl p ↦ find_complete (λ id d. is_table sm uuid d) (m.by_ws ws) id d p g
      | inr ((k, v), p) ↦ absurd (ground arith)
    ]

pub is_table-iceberg :
    (sm uuid : Text) (d : Dataset) → is_table sm uuid d ≡ true → d.format ≡ iceberg
is_table-iceberg sm uuid d h = ground arith

-- The row that an event finds, or the new ID, is the only row of the event's table.
pub id_or-alone :
    (m : MemoryStore) (ws sm uuid new_id j : Text) (e : Dataset)
    → IsWellFormed m
    → GoMap.get j (m.by_ws ws) ≡ some e
    → is_table sm uuid e ≡ true
    → id_or (find_table m ws sm uuid) new_id ≡ j
id_or-alone m ws sm uuid new_id j e before g t = elim (Option-cases (find_table m ws sm uuid)) [
  | inl p ↦ absurd (ground (arith, find_table_complete m ws sm uuid j e p g))
  | inr (cur, p) ↦
      let (row, here, is) = find_table_sound m ws sm uuid cur before p in
      rw p ((before ws).identified cur.id j cur e sm uuid row g is t)
]

-- The ID that an event writes under is not empty, and is free of the name only where `nameTaken` looked.
pub id_or-has_id :
    (m : MemoryStore) (ws sm uuid new_id : Text)
    → IsWellFormed m
    → new_id ≢ []
    → id_or (find_table m ws sm uuid) new_id ≢ []
id_or-has_id m ws sm uuid new_id before h = elim (Option-cases (find_table m ws sm uuid)) [
  | inl p ↦ rw p h
  | inr (cur, p) ↦
      let (row, _, _) = find_table_sound m ws sm uuid cur before p in
      rw p (ground (arith, (before ws).no_empty_id))
]

pub id_or-free :
    (m : MemoryStore) (ws sm uuid new_id name : Text)
    → IsWellFormed m
    → name_taken m ws name (id_or (find_table m ws sm uuid) []) ≡ false
    → (j : Text) (e : Dataset) → id_or (find_table m ws sm uuid) new_id ≢ j
    → visible (m.by_ws ws) (m.tombstoned ws) j ≡ some e
    → e.name ≢ name
id_or-free m ws sm uuid new_id name before h j e ne v =
    elim (Option-cases (find_table m ws sm uuid)) [
      | inl p ↦
          name_taken_complete m ws name [] j e (ground arith)
            (ground (arith, (before ws).no_empty_id)) v
      | inr (cur, p) ↦ name_taken_complete m ws name cur.id j e (ground arith) (ground arith) v
    ]
