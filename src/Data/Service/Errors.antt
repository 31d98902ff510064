-- ===== src/Data/Service/Errors.antt =====
-- A method that fails changes nothing (internal/data/service.go over internal/data/memory.go).
use booth_catalog.Prelude.{
  Bool, true, false, [], ltb, nat_eq, list_eq, if◌then◌else◌, ◌≡◌, refl, arith, Bool-cases,
  Option-cases, inl, inr,
}
use booth_catalog.Text.{Text, Casing}
use booth_catalog.Asset.Actor.{Actor}
use booth_catalog.Asset.Error.{Error, Result, ok, err, managed_externally, with_value-keeps}
use booth_catalog.Data.Model.{Time, Dataset, Input, TableUpsert, PostgresTableUpsert}
use booth_catalog.Data.Input
use booth_catalog.Data.Store.{
  MemoryStore, lookup, get, name_taken, find_table, find_postgres_table, is_dead,
}
use booth_catalog.Data.Store
use booth_catalog.Data.Store.Events
use booth_catalog.Data.Store.Events.{dataset_name, postgres_dataset_name, is_stale, id_or}
use booth_catalog.Data.Service.{
  is_managed, deletion_error, delete, create, update, apply_table, remove_table,
  apply_postgres_table, remove_postgres_table, registered, edited, written, save_edited,
}

-- The result is an error only where the store is as it was.
abbrev pub Keeps : {A : Type 0} → MemoryStore → Result A × MemoryStore → Type 0
Keeps m r = (e : Error) → r.0 ≡ err e → r.1 ≡ m

create-Keeps : (m : MemoryStore) (d : Dataset) → Keeps m (Store.create m d)
unfolding Store.create
create-Keeps m d e h = elim (Bool-cases (name_taken m d.workspace d.name [])) [
  | inl p ↦ rw p refl
  | inr p ↦ absurd (ground arith)
]

update-Keeps : (m : MemoryStore) (d : Dataset) → Keeps m (Store.update m d)
unfolding Store.update
update-Keeps m d e h = elim (Option-cases (lookup m d.workspace d.id)) [
  | inl p ↦ rw p refl
  | inr (cur, p) ↦ elim (Bool-cases (name_taken m d.workspace d.name d.id)) [
    | inl q ↦ rw (p, q) refl
    | inr q ↦ absurd (ground arith)
  ]
]

delete_row-Keeps : (m : MemoryStore) (ws id : Text) → Keeps m (Store.delete m ws id)
unfolding Store.delete
delete_row-Keeps m ws id e h = elim (Option-cases (lookup m ws id)) [
  | inl p ↦ rw p refl
  | inr (cur, p) ↦ absurd (ground arith)
]

apply_table-Keeps : (m : MemoryStore) (u : TableUpsert) → Keeps m (Events.apply_table m u)
unfolding Events.apply_table
apply_table-Keeps m u e h =
    let cur = find_table m u.workspace u.source_module u.uuid in
    elim (Bool-cases (is_stale cur u.at)) [
      | inl p ↦ rw p refl
      | inr p ↦ elim (Bool-cases (name_taken m u.workspace (dataset_name u) (id_or cur []))) [
        | inl q ↦ rw (p, q) refl
        | inr q ↦ elim (Bool-cases (is_dead m u.workspace (id_or cur u.new_id))) [
          | inl r ↦ absurd (ground arith)
          | inr r ↦ absurd (ground arith)
        ]
      ]
    ]

remove_table-Keeps :
    (m : MemoryStore) (ws sm uuid : Text) (at : Time) (new_id : Text)
    → Keeps m (Events.remove_table m ws sm uuid at new_id)
unfolding Events.remove_table
remove_table-Keeps m ws sm uuid at new_id e h = elim (Option-cases (find_table m ws sm uuid)) [
  | inl p ↦ absurd (ground arith)
  | inr (cur, p) ↦ elim (Bool-cases (ltb at cur.updated_at)) [
    | inl q ↦ rw (p, q) refl
    | inr q ↦ absurd (ground arith)
  ]
]

apply_postgres-Keeps :
    (m : MemoryStore) (u : PostgresTableUpsert) → Keeps m (Events.apply_postgres_table m u)
unfolding Events.apply_postgres_table
apply_postgres-Keeps m u e h =
    elim (Option-cases (find_postgres_table m u.workspace u.schema u.name)) [
      | inl p ↦
          elim (Bool-cases (name_taken m u.workspace (postgres_dataset_name u.schema u.name) [])) [
            | inl q ↦ rw (p, q) refl
            | inr q ↦ absurd (ground arith)
          ]
      | inr (cur, p) ↦ elim (Bool-cases (ltb u.at cur.updated_at)) [
        | inl q ↦ rw (p, q) refl
        | inr q ↦ absurd (ground arith)
      ]
    ]

remove_postgres-Keeps :
    (m : MemoryStore) (ws schema name : Text) (at : Time) (new_id : Text)
    → Keeps m (Events.remove_postgres_table m ws schema name at new_id)
unfolding Events.remove_postgres_table
remove_postgres-Keeps m ws schema name at new_id e h =
    elim (Option-cases (find_postgres_table m ws schema name)) [
      | inl p ↦ elim (Bool-cases (name_taken m ws (postgres_dataset_name schema name) [])) [
        | inl q ↦ rw (p, q) refl
        | inr q ↦ absurd (ground arith)
      ]
      | inr (cur, p) ↦ elim (Bool-cases (ltb at cur.updated_at)) [
        | inl q ↦ rw (p, q) refl
        | inr q ↦ absurd (ground arith)
      ]
    ]

-- An event of another module that the service answers with an error, whether its validation or the
-- store refused it, leaves the store as it was.
pub events-Keep :
    (m : MemoryStore) (t : TableUpsert) (p : PostgresTableUpsert) (ws a b : Text) (at now : Time)
    (new_id : Text)
    → Keeps m (apply_table m t new_id now)
      × Keeps m (remove_table m ws a b at new_id)
      × Keeps m (apply_postgres_table m p new_id now)
      × Keeps m (remove_postgres_table m ws a b at new_id)
unfolding apply_table remove_table apply_postgres_table remove_postgres_table
events-Keep m t p ws a b at now new_id = (
  with_value-keeps m _ _
      (λ u. apply_table-Keeps m (record u { new_id = new_id; received_at = now })),
  with_value-keeps m _ _ (λ uuid. remove_table-Keeps m ws a uuid _ new_id),
  with_value-keeps m _ _
      (λ u. apply_postgres-Keeps m (record u { new_id = new_id; received_at = now })),
  with_value-keeps m _ _ (λ (s, n). remove_postgres-Keeps m ws s n _ new_id),
)

written-Keeps :
    (m : MemoryStore) (d : Dataset) (r : Result (Unit {0}) × MemoryStore)
    → Keeps m r
    → Keeps m (written d r)
written-Keeps m d (ok _, m') k e h = absurd (ground arith)
written-Keeps m d (err x, m') k e h = k x refl

if-Keeps :
    {A : Type 0} (m : MemoryStore) (b : Bool) (r r' : Result A × MemoryStore)
    → Keeps m r
    → Keeps m r'
    → Keeps m (if b then r else r')
if-Keeps m true r r' k k' = k
if-Keeps m false r r' k k' = k'

save_edited-Keeps :
    (m : MemoryStore) (i : Input) (now : Time) (cur : Dataset) → Keeps m (save_edited m i now cur)
unfolding save_edited
save_edited-Keeps m i now cur =
    if-Keeps m (is_managed cur) (err managed_externally, m) _ (λ e h. refl)
      (written-Keeps m (edited cur now i) (Store.update m (edited cur now i))
        (update-Keeps m (edited cur now i)))

pub delete-Keeps :
    (m : MemoryStore) (ws id : Text) (is_owner : Bool) → Keeps m (delete m ws id is_owner)
unfolding delete
delete-Keeps m ws id is_owner = with_value-keeps m _ _ (λ cur.
    with_value-keeps m (deletion_error cur is_owner) (λ _. Store.delete m ws id)
      (λ _. delete_row-Keeps m ws id))

module _ ⦃u : Casing⦄ where
  -- A call of Create, Update or Delete that returns an error leaves the store as it was.
  pub writes-Keep :
      (m : MemoryStore) (ws id : Text) (actor : Actor) (i : Input) (now : Time) (is_owner : Bool)
      → Keeps m (create m ws actor i id now)
        × Keeps m (update m ws id i now)
        × Keeps m (delete m ws id is_owner)
  unfolding create update
  writes-Keep m ws id actor i now is_owner = (
    with_value-keeps m _ _ (λ i'.
        written-Keeps m (registered id ws actor now i') _
          (create-Keeps m (registered id ws actor now i'))),
    with_value-keeps m (Input.normalize i) _ (λ i'.
        with_value-keeps m (get m ws id) (save_edited m i' now) (save_edited-Keeps m i' now)),
    delete-Keeps m ws id is_owner,
  )
