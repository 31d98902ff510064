-- ===== src/Events/Settling.antt =====
-- The catalogs' answers to events over the in-memory stores (internal/data and internal/dashboards,
-- service.go and memory.go): what was refused, what was stale and what was applied.
use booth_catalog.Prelude.{Bool, true, false, nat_eq, list_eq, ◌⊎◌, inl, inr, ◌≡◌, refl, ap, arith}
use booth_catalog.Text.{Text}
use booth_catalog.Asset.Error.{Result, ok, err, invalid, exists, with_value}
use booth_catalog.Asset.Error.Validating.{IsValidated, IsValidated-err}
use booth_catalog.Data.Model.{Time, TableUpsert, PostgresTableUpsert}
use booth_catalog.Data.Store.{find_table, find_postgres_table, name_taken, is_dead}
use booth_catalog.Data.Store as DataStore
use booth_catalog.Data.Store.Events
use booth_catalog.Dashboards.Model
use booth_catalog.Dashboards.Store

-- An applied event, or a stale one that changed nothing.
abbrev pub IsStep : {S : Type 0} → S → Result Bool × S → Type 0
IsStep s r = (r.0 ≡ ok true) ⊎ (r ≡ (ok false, s))

-- One of a table may also be refused for its name, and changes nothing then.
abbrev pub IsTableStep : {S : Type 0} → S → Result Bool × S → Type 0
IsTableStep s r = IsStep s r ⊎ (r ≡ (err exists, s))

-- A call, by the state, the drawn ID and the clock: refused for one field whatever these are, or
-- never refused.
abbrev pub IsAnswered :
    {S : Type 0} → (S → Result Bool × S → Type 0) → (S → Text → Time → Result Bool × S) → Type 0
IsAnswered {S} step call =
    ((field : Text) × ((s : S) (id : Text) (now : Time) → call s id now ≡ (err (invalid field), s)))
    ⊎ ((s : S) (id : Text) (now : Time) → step s (call s id now))

pub with_value-IsAnswered :
    {A S : Type 0} (step : S → Result Bool × S → Type 0) (r : Result A)
    (f : S → Text → Time → A → Result Bool × S)
    → IsValidated r
    → ((s : S) (id : Text) (now : Time) (a : A) → step s (f s id now a))
    → IsAnswered step (λ s id now. with_value s r (f s id now))
with_value-IsAnswered step (ok a) f v h = inr (λ s id now. h s id now a)
with_value-IsAnswered {A = A} step (err e) f v h =
    let (field, is) = IsValidated-err {T = A} (err e) e v refl in
    inl (field, λ s id now. ap (λ x. (err x, s)) is)

pub apply-IsStep : (m : Store.MemoryStore) (u : Model.Upsert) → IsStep m (Store.apply m u)
unfolding Store.apply
apply-IsStep m u = ground arith

pub remove-IsStep :
    (m : Store.MemoryStore) (ws sm ext : Text) (at : Time) (id : Text)
    → IsStep m (Store.remove m ws sm ext at id)
unfolding Store.remove
remove-IsStep m ws sm ext at id = ground arith

pub apply_table-IsTableStep :
    (m : DataStore.MemoryStore) (u : TableUpsert) → IsTableStep m (Events.apply_table m u)
unfolding Events.apply_table
apply_table-IsTableStep m u = ground arith

pub remove_table-IsTableStep :
    (m : DataStore.MemoryStore) (ws sm uuid : Text) (at : Time) (id : Text)
    → IsTableStep m (Events.remove_table m ws sm uuid at id)
unfolding Events.remove_table
remove_table-IsTableStep m ws sm uuid at id = ground arith

pub apply_postgres-IsTableStep :
    (m : DataStore.MemoryStore) (u : PostgresTableUpsert)
    → IsTableStep m (Events.apply_postgres_table m u)
unfolding Events.apply_postgres_table
apply_postgres-IsTableStep m u = ground arith

pub remove_postgres-IsTableStep :
    (m : DataStore.MemoryStore) (ws schema name : Text) (at : Time) (id : Text)
    → IsTableStep m (Events.remove_postgres_table m ws schema name at id)
unfolding Events.remove_postgres_table
remove_postgres-IsTableStep m ws schema name at id = ground arith
