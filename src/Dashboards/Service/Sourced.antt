-- ===== src/Dashboards/Service/Sourced.antt =====
-- The sources of the stored dashboards (internal/dashboards/service.go: Apply and Remove).
use booth_catalog.Prelude.{
  [], eq_iff, nat_eq, list_eq, All, some, ◌≡◌, subst, ◌⊎◌, arith, Bool-cases, inl, inr,
}
use booth_catalog.Prelude.GoMap
use booth_catalog.Prelude.GoMap.Laws.{get-put}
use booth_catalog.Text.{Text}
use booth_catalog.Asset.Error.{Result-cases}
use booth_catalog.Data.Model.{Time}
use booth_catalog.Data.Upsert.{truncate}
use booth_catalog.Dashboards.Model.{Dashboard, Upsert, normalize}
use booth_catalog.Dashboards.Model.Laws.{normalize-eq-ok}
use booth_catalog.Dashboards.Model.Canonical.{IsCanonical, keep_sources-IsCanonical}
use booth_catalog.Dashboards.Store.{
  MemoryStore, new_store, write, bury, revive, blank, or_blank, refreshed, is_stale, is_dead, find,
}
use booth_catalog.Dashboards.Store as Store
use booth_catalog.Dashboards.Service as Service

-- Every location that a stored dashboard reads is in canonical form.
abbrev pub HasCanonicalSources : MemoryStore → Type 0
HasCanonicalSources m =
    (ws id : Text) (d : Dashboard) → GoMap.get id (m.by_ws ws) ≡ some d → All IsCanonical d.sources

write-HasCanonicalSources :
    (m : MemoryStore) (ws : Text) (d : Dashboard)
    → HasCanonicalSources m
    → All IsCanonical d.sources
    → HasCanonicalSources (write ws d m)
write-HasCanonicalSources m ws d before fresh w id e h =
    let either : (◌≡◌ {A = Dashboard} d e) ⊎ (GoMap.get id (m.by_ws w) ≡ some e) =
      ground (arith, eq_iff ws w, get-put d.id id d (m.by_ws ws)) in
    elim either [
      | inl same ↦ subst (λ x. All IsCanonical x.sources) same fresh
      | inr old ↦ before w id e old
    ]

pub new_store-HasCanonicalSources : HasCanonicalSources new_store
unfolding GoMap.get
new_store-HasCanonicalSources ws id d h = absurd (ground arith)

pub store_apply-HasCanonicalSources :
    (m : MemoryStore) (u : Upsert)
    → HasCanonicalSources m
    → All IsCanonical u.sources
    → HasCanonicalSources (Store.apply m u).1
unfolding Store.apply
store_apply-HasCanonicalSources m u before fresh =
    let ws = u.workspace in
    let cur = find m ws u.source_module u.external_id in
    let d =
      refreshed u (or_blank cur (blank u.new_id ws u.source_module u.external_id u.received_at)) in
    elim (Bool-cases (is_stale cur u.at)) [
      | inl p ↦ rw p before
      | inr p ↦ elim (Bool-cases (is_dead m ws d.id)) [
        | inl q ↦
            rw (p, q)
              (write-HasCanonicalSources (revive ws d.id m) ws
                (record d { created_at = u.received_at }) before fresh)
        | inr q ↦ rw (p, q) (write-HasCanonicalSources m ws d before fresh)
      ]
    ]

store_remove-HasCanonicalSources :
    (m : MemoryStore) (ws source_module external_id new_id : Text) (at : Time)
    → HasCanonicalSources m
    → HasCanonicalSources (Store.remove m ws source_module external_id at new_id).1
unfolding Store.remove
store_remove-HasCanonicalSources m ws sm ext new_id at before =
    let cur = find m ws sm ext in
    let d = or_blank cur (blank new_id ws sm ext at) in
    elim (Bool-cases (is_stale cur at)) [
      | inl p ↦ rw p before
      | inr p ↦
          rw p
            (write-HasCanonicalSources m ws (record d { updated_at = at; sources = [] }) before tt)
    ]

-- What a published event leaves: an upsert is normalized before it is stored, and a removal stores no
-- source.
pub apply-HasCanonicalSources :
    (m : MemoryStore) (u : Upsert) (new_id : Text) (now : Time)
    → HasCanonicalSources m
    → HasCanonicalSources (Service.apply m u new_id now).1
unfolding Service.apply
apply-HasCanonicalSources m u new_id now before = elim (Result-cases (normalize u)) [
  | inl ((out, dropped), p) ↦
      let (_, _, _, loop, _) = normalize-eq-ok u out dropped p in
      rw p (
        store_apply-HasCanonicalSources m (record out { new_id = new_id; received_at = now }) before
          (subst (λ x. All IsCanonical x.0) loop (keep_sources-IsCanonical ([], 0) u.sources tt)))
  | inr (e, p) ↦ rw p before
]

pub remove-HasCanonicalSources :
    (m : MemoryStore) (ws source_module external_id new_id : Text) (at : Time)
    → HasCanonicalSources m
    → HasCanonicalSources (Service.remove m ws source_module external_id at new_id).1
unfolding Service.remove
remove-HasCanonicalSources m ws sm ext new_id at before =
    elim (Result-cases (Service.checked_removal ws sm ext at)) [
      | inl (id, p) ↦ rw p (store_remove-HasCanonicalSources m ws sm id new_id (truncate at) before)
      | inr (e, p) ↦ rw p before
    ]
