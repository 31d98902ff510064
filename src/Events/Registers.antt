-- ===== src/Events/Registers.antt =====
-- What a message of the dashboards' processor says, and that the catalog then shows it
-- (internal/events/processor.go over internal/dashboards).
use booth_catalog.Prelude.{
  eq_iff, nat_eq, list_eq, ◌==◌, if◌then◌else◌, Option, none, some, ◌≡◌, refl, arith, Bool-cases,
  inl, inr, subst, ℕ,
}
use booth_catalog.Prelude.GoMap
use booth_catalog.Text.{Text}
use booth_catalog.Asset.Error.{Result, ok, err, with_value}
use booth_catalog.Data.Model.{Time}
use booth_catalog.Data.Upsert.{truncate}
use booth_catalog.Dashboards.Model.{Upsert, normalize}
use booth_catalog.Dashboards.Store.{MemoryStore}
use booth_catalog.Dashboards.Store
use booth_catalog.Dashboards.Store.Register.{IsWellFormed, content_of, Event, register, newer}
use booth_catalog.Dashboards.Store.Newest.{apply-register, remove-register}
use booth_catalog.Dashboards.Store.Elsewhere.{
  is_same, IsElsewhere, apply-IsElsewhere, remove-IsElsewhere,
}
use booth_catalog.Dashboards.Service
use booth_catalog.Dashboards.Service.{checked_removal}
use booth_catalog.Events.{Envelope, Reading, accepted, refused, verdict_on, settle}
use booth_catalog.Events.Dashboards.{DashboardData, memory_catalog, event_deleted, upsert_of, call}

-- A dashboard by its workspace, its module and its ID there, and what is said of it.
abbrev pub Said : Type 0
Said = Text × Text × Text × Event

abbrev pub update_of : Result (Upsert × ℕ) → Option Said
update_of (ok (u, n)) =
    some (u.workspace, u.source_module, u.external_id, (u.at, some (content_of u)))
update_of (err e) = none

abbrev pub removal_of : Text → Text → Time → Result Text → Option Said
removal_of ws sm at (ok ext) = some (ws, sm, ext, (truncate at, none))
removal_of ws sm at (err e) = none

abbrev pub said_by : Reading DashboardData → Option Said
said_by (refused why) = none
said_by (accepted ws et env d) =
    if et == event_deleted
    then removal_of ws env.published_by env.published_at
        (checked_removal ws env.published_by d.dashboard_id env.published_at)
    else update_of (normalize (upsert_of ws env d))

-- One dashboard's register after what was said.
abbrev pub heard : Text → Text → Text → Option Said → Option Event → Option Event
heard ws sm ext none s = s
heard ws sm ext (some (ws', sm', ext', e)) s =
    if is_same ws' sm' ext' ws sm ext then newer s e else s

abbrev pub IsFresh : Text → MemoryStore → Type 0
IsFresh id m = (ws : Text) → GoMap.get id (m.by_ws ws) ≡ none

-- A store that is well formed, and in which every register has heard what was said.
abbrev pub HasHeard : Option Said → MemoryStore → MemoryStore → Type 0
HasHeard said m m' =
    IsWellFormed m'
    × ((ws sm ext : Text) → register m' ws sm ext ≡ heard ws sm ext said (register m ws sm ext))

-- Of an operation on one dashboard.
heard_everywhere :
    (m r : MemoryStore) (ws sm ext : Text) (e : Event)
    → IsWellFormed r × (register r ws sm ext ≡ newer (register m ws sm ext) e)
    → IsElsewhere m ws sm ext r
    → HasHeard (some (ws, sm, ext, e)) m r
heard_everywhere m r ws sm ext e (well, here) there = (
  well,
  λ ws' sm' ext'. elim (Bool-cases (is_same ws sm ext ws' sm' ext')) [
    | inl p ↦
        let Hears : Text → Text → Text → Type 0 =
          λ x y z. register r x y z ≡ newer (register m x y z) e in
        let w : ws ≡ ws' = ground (arith, eq_iff ws ws') in
        let s : sm ≡ sm' = ground (arith, eq_iff sm sm') in
        let x : ext ≡ ext' = ground (arith, eq_iff ext ext') in
        rw p (
          subst (λ z. Hears ws' sm' z) x
            (subst (λ y. Hears ws' y ext) s (subst (λ x. Hears x sm ext) w here)))
    | inr p ↦ rw p (there ws' sm' ext' p)
  ],
)

module _ (m : MemoryStore) (before : IsWellFormed m) (id : Text) (now : Time)
    (fresh : IsFresh id m) where
  update-HasHeard :
      (r : Result (Upsert × ℕ))
      → HasHeard
          (update_of r)
          m
          (with_value m r (λ (u, n). Store.apply m (record u { new_id = id; received_at = now }))).1
  update-HasHeard (err e) = (before, λ ws sm ext. refl)
  update-HasHeard (ok (u, n)) =
      let u' = record u { new_id = id; received_at = now } in
      heard_everywhere m _ u.workspace u.source_module u.external_id _ (apply-register m u' before)
        (apply-IsElsewhere m u' before (fresh u.workspace))

  removal-HasHeard :
      (ws sm : Text) (at : Time) (r : Result Text)
      → HasHeard
          (removal_of ws sm at r)
          m
          (with_value m r (λ ext. Store.remove m ws sm ext (truncate at) id)).1
  removal-HasHeard ws sm at (err e) = (before, λ ws sm ext. refl)
  removal-HasHeard ws sm at (ok ext) =
      heard_everywhere m _ ws sm ext _ (remove-register m ws sm ext (truncate at) id before)
        (remove-IsElsewhere m ws sm ext (truncate at) id before (fresh ws))

  call-HasHeard :
      (ws et : Text) (env : Envelope) (d : DashboardData)
      → HasHeard (said_by (accepted ws et env d)) m (call (memory_catalog id now) m ws et env d).1
  unfolding Service.apply Service.remove
  call-HasHeard ws et env d = elim (Bool-cases (et == event_deleted)) [
    | inl p ↦ rw p (
        removal-HasHeard ws env.published_by env.published_at
          (checked_removal ws env.published_by d.dashboard_id env.published_at))
    | inr p ↦ rw p (update-HasHeard (normalize (upsert_of ws env d)))
  ]

  pub settle-HasHeard :
      (r : Reading DashboardData)
      → HasHeard (said_by r) m (settle verdict_on (call (memory_catalog id now)) m r).1
  settle-HasHeard (refused why) = (before, λ ws sm ext. refl)
  settle-HasHeard (accepted ws et env d) = call-HasHeard ws et env d
