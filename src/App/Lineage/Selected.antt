-- ===== src/App/Lineage/Selected.antt =====
-- Which rows a query selects (internal/data/memory.go and internal/dashboards/memory.go).
use booth_catalog.Prelude.{
  Bool, false, not, ◌&&◌, List, [], ◌∷◌, ◌==◌, nat_eq, list_eq, any, map, some, ◌≡◌, refl, sym, ◌∙◌,
  subst, arith,
}
use booth_catalog.Prelude.GoMap
use booth_catalog.Prelude.GoMap.{GoMap}
use booth_catalog.Prelude.GoMap.Ranged.{ranged, any-ranged}
use booth_catalog.Prelude.Sorting.Laws.{any-sort_stable}
use booth_catalog.Text.{Text, Casing}
use booth_catalog.Asset.Error.{ok}
use booth_catalog.Data.Model.{Dataset}
use booth_catalog.Data.Store as DataStore
use booth_catalog.Data.Store.Kept as Kept
use booth_catalog.Data.Store.Queries
use booth_catalog.Dashboards.Model.{Dashboard}
use booth_catalog.Dashboards.Store as DashboardStore
use booth_catalog.Dashboards.Store.Register as Register

pub any-map :
    {A B : Type 0} (p : B → Bool) (f : A → B) (xs : List A)
    → any p (map f xs) ≡ any (λ x. p (f x)) xs
any-map p f [] = refl
any-map p f (x ∷ xs) = ground (arith, any-map p f xs)

select-eq-ranged :
    (m : DataStore.MemoryStore) (ws : Text) (p : Dataset → Bool) (rows : GoMap Text Dataset)
    → Queries.select m ws p rows ≡ ranged (λ id d. not (DataStore.is_dead m ws id) && p d) rows
unfolding Queries.select ranged
select-eq-ranged m ws p [] = refl
select-eq-ranged m ws p ((id, d) ∷ rows) = ground (arith, select-eq-ranged m ws p rows)

-- A row that reads see is among the selected exactly where it has the property.
pub any-selected :
    (m : DataStore.MemoryStore) (ws : Text) (p : Dataset → Bool) (d : Dataset)
    → Kept.IsWellFormed m
    → DataStore.get m ws d.id ≡ ok d
    → any (λ (x : Dataset). x.id == d.id) (Queries.selected m ws p) ≡ p d
any-selected m ws p d before h =
    let (live, row) = DataStore.lookup-eq-some m ws d.id d (DataStore.get-eq-ok m ws d.id d h) in
    let found =
      any-ranged (λ x. x.id) (λ id d. not (DataStore.is_dead m ws id) && p d) d.id d (m.by_ws ws)
        (before ws).distinct (λ k v g. ((before ws).keyed k v g).0) row in
    ground (arith, live, found, select-eq-ranged m ws p (m.by_ws ws))

board_select-eq-ranged :
    (m : DashboardStore.MemoryStore) (ws : Text) (p : Dashboard → Bool)
    (rows : GoMap Text Dashboard)
    → DashboardStore.select m ws p rows
      ≡ ranged (λ id d. not (DashboardStore.is_dead m ws id) && p d) rows
unfolding DashboardStore.select ranged
board_select-eq-ranged m ws p [] = refl
board_select-eq-ranged m ws p ((id, d) ∷ rows) = ground (arith, board_select-eq-ranged m ws p rows)

pub any-board_selected :
    (m : DashboardStore.MemoryStore) (ws : Text) (p : Dashboard → Bool) (b : Dashboard)
    → Register.IsWellFormed m
    → DashboardStore.get m ws b.id ≡ ok b
    → any (λ x. x.id == b.id) (DashboardStore.selected m ws p) ≡ p b
unfolding DashboardStore.get DashboardStore.live
any-board_selected m ws p b before h =
    let live : DashboardStore.is_dead m ws b.id ≡ false = ground arith in
    let row : GoMap.get b.id (m.by_ws ws) ≡ some b = ground arith in
    let found =
      any-ranged (λ x. x.id) (λ id d. not (DashboardStore.is_dead m ws id) && p d) b.id b
        (m.by_ws ws) (before ws).distinct (before ws).keyed row in
    ground (arith, live, found, board_select-eq-ranged m ws p (m.by_ws ws))

-- A dashboard that reads see is listed as reading a dataset exactly where one of its sources is that one.
pub any-reading_dataset :
    ⦃u : Casing⦄ (m : DashboardStore.MemoryStore) (ws board : Text) (d : Dataset) (b : Dashboard)
    → Register.IsWellFormed m
    → DashboardStore.get m ws board ≡ ok b
    → any (λ x. x.id == b.id) (DashboardStore.reading_dataset m ws d.id d.location)
      ≡ any (DashboardStore.reads d.id d.location) b.sources
unfolding DashboardStore.get DashboardStore.live DashboardStore.reading_dataset
    DashboardStore.sort_by_name
any-reading_dataset m ws board d b before h =
    let row : GoMap.get board (m.by_ws ws) ≡ some b = ground arith in
    let own = (before ws).keyed board b row in
    let P : Dashboard → Bool = λ x. any (DashboardStore.reads d.id d.location) x.sources in
    let found =
      any-board_selected m ws P b before
        (subst (λ x. DashboardStore.get m ws x ≡ ok b) (sym own) h) in
    let kept = DashboardStore.selected m ws P in
    let mapped = any-map (λ (x : Dashboard). x.id == b.id) DashboardStore.unsourced kept in
    let sorted =
      any-sort_stable DashboardStore.name_less (λ (x : Dashboard). x.id == b.id)
        (map DashboardStore.unsourced kept) in
    sorted ∙ mapped ∙ found
