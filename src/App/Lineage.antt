-- ===== src/App/Lineage.antt =====
-- The two sides of lineage over the in-memory catalogs (internal/app, internal/dashboards/service.go and memory.go).
pub mod Selected
use booth_catalog.Prelude.{
  Bool, false, sort_stable, ◌&&◌, List, [], ◌∷◌, ◌==◌, eq_iff, nat_eq, list_eq, any, map, All, some,
  ◌≡◌, refl, sym, ◌∙◌, ap, subst, arith, inl, inr,
}
use booth_catalog.Prelude.GoMap
use booth_catalog.Prelude.Sorting.Laws.{any-sort_stable}
use booth_catalog.Text.{Text, txt, Casing}
use booth_catalog.Asset.Error.{Error, err, ok, ok-injective, ◌>>=◌, Result-cases, bind-eq-ok}
use booth_catalog.Asset.Location.{Location, normalize_location, path_contains}
use booth_catalog.Data.Model.{Dataset}
use booth_catalog.Data.Store as DataStore
use booth_catalog.Data.Store.Kept as Kept
use booth_catalog.Data.Store.Queries
use booth_catalog.Data.Service as DataService
use booth_catalog.Dashboards.Model.{SourceType, Source, Dashboard}
use booth_catalog.Dashboards.Model.Canonical.{IsCanonical}
use booth_catalog.Dashboards.Service.Sourced.{HasCanonicalSources}
use booth_catalog.Dashboards.Store as DashboardStore
use booth_catalog.Dashboards.Store.Register as Register
use booth_catalog.Dashboards.Service.{
  DatasetRef, ResolvedSource, Lineage, datasets_of, datasets_as, as_list, resolve_all, resolve,
}
use booth_catalog.Dashboards.Service as DashboardService
use booth_catalog.App.{Services, dataset_resolver, ref_of, ref_or_none}
use booth_catalog.App.Lineage.Selected.{any-map, any-selected, any-reading_dataset}

no_ref :
    (e : Error) (refs : List DatasetRef)
    → (ref_or_none (err e) >>= λ ref. ok (as_list ref)) ≡ ok refs
    → [] ≡ refs
no_ref e refs h = ground arith

module _ ⦃u : Casing⦄ (m : DataStore.MemoryStore) (ws : Text) (d : Dataset)
    (before : Kept.IsWellFormed m) (visible : DataStore.get m ws d.id ≡ ok d) where
  abbrev names : List DatasetRef → Bool
  names refs = any (λ r. r.id == d.id) refs

  by_id-agree :
      (id : Text) (refs : List DatasetRef)
      → ((dataset_resolver m).by_id ws id >>= λ ref. ok (as_list ref)) ≡ ok refs
      → (id == d.id) ≡ names refs
  unfolding dataset_resolver
  by_id-agree id refs h = elim (Result-cases (DataStore.get m ws id)) [
    | inl (other, g) ↦
        let (_, row) =
          DataStore.lookup-eq-some m ws id other (DataStore.get-eq-ok m ws id other g) in
        let (own, _) = (before ws).keyed id other row in
        let one : ◌≡◌ {A = List DatasetRef} (ref_of other ∷ []) refs = ground arith in
        subst (λ x. (id == d.id) ≡ names x) one (ground (arith, own))
    | inr (e, g) ↦
        let none_there : ◌≡◌ {A = List DatasetRef} [] refs =
          no_ref e refs (subst (λ x. (ref_or_none x >>= λ ref. ok (as_list ref)) ≡ ok refs) g h) in
        subst (λ x. (id == d.id) ≡ names x) none_there (ground (arith, eq_iff id d.id))
  ]

  by_location-agree :
      (loc : Location) (refs : List DatasetRef)
      → normalize_location (txt "location") loc ≡ ok loc
      → (dataset_resolver m).by_location ws loc ≡ ok refs
      → (loc.backend_id == d.location.backend_id && path_contains d.location.path loc.path)
        ≡ names refs
  unfolding dataset_resolver DataService.containing_location Queries.containing_location
      Queries.sort_by_name
  by_location-agree loc refs canonical h =
      let P : Dataset → Bool =
        λ x. x.location.backend_id == loc.backend_id && path_contains x.location.path loc.path in
      let found = any-selected m ws P d before visible in
      let sorted =
        any-sort_stable Queries.name_less (λ (x : Dataset). x.id == d.id)
          (Queries.selected m ws P) in
      let mapped =
        any-map (λ (r : DatasetRef). r.id == d.id) ref_of
          (sort_stable Queries.name_less (Queries.selected m ws P)) in
      let shown : ◌≡◌ {A = List DatasetRef}
          (map ref_of (sort_stable Queries.name_less (Queries.selected m ws P))) refs =
        ok-injective (
          sym (
            ap
              (λ x. (x >>= λ l. ok (Queries.containing_location m ws l)) >>= λ found.
                ok (map ref_of found))
              canonical)
          ∙ h) in
      subst
        (λ x.
          (loc.backend_id == d.location.backend_id && path_contains d.location.path loc.path)
          ≡ names x)
        shown
        (ground (
          arith,
          found,
          sorted,
          mapped,
          eq_iff loc.backend_id d.location.backend_id,
          eq_iff d.location.backend_id loc.backend_id,
        ))

  datasets_as-agree :
      (t : SourceType) (s : Source) (refs : List DatasetRef)
      → s.type ≡ t
      → IsCanonical s
      → datasets_as t (dataset_resolver m) ws s ≡ ok refs
      → DashboardStore.reads d.id d.location s ≡ names refs
  datasets_as-agree SourceType.dataset s refs e canonical h =
      rw e (ground (arith, by_id-agree s.dataset_id refs h))
  datasets_as-agree SourceType.location s refs e canonical h = rw e (
      ground (
        arith,
        by_location-agree (record { backend_id = s.backend_id; path = s.path }) refs (canonical e)
            h,
      ))
  datasets_as-agree SourceType.external s refs e canonical h = rw e (ground arith)
  datasets_as-agree (SourceType.other x) s refs e canonical h = rw e (ground arith)

  datasets_of-agree :
      (s : Source) (refs : List DatasetRef)
      → IsCanonical s
      → datasets_of (dataset_resolver m) ws s ≡ ok refs
      → DashboardStore.reads d.id d.location s ≡ names refs
  unfolding datasets_of
  datasets_of-agree s refs canonical h = datasets_as-agree s.type s refs refl canonical h

  abbrev shows : List ResolvedSource → Bool
  shows sources = any (λ x. names x.datasets) sources

  resolve_all-agree :
      (ss : List Source) (out : List ResolvedSource)
      → All IsCanonical ss
      → resolve_all (dataset_resolver m) ws ss ≡ ok out
      → any (DashboardStore.reads d.id d.location) ss ≡ shows out
  unfolding resolve_all
  resolve_all-agree [] out canonical h = subst (λ x. false ≡ shows x) (ok-injective h) refl
  resolve_all-agree (s ∷ ss) out (here, there) h =
      let (refs, p, h1) = bind-eq-ok (datasets_of (dataset_resolver m) ws s) _ h in
      let (rest, q, h2) = bind-eq-ok (resolve_all (dataset_resolver m) ws ss) _ h1 in
      subst (λ x. any (DashboardStore.reads d.id d.location) (s ∷ ss) ≡ shows x) (ok-injective h2)
        (ground (arith, datasets_of-agree s refs here p, resolve_all-agree ss rest there q))

  resolve-agree :
      (b : Dashboard) (l : Lineage)
      → All IsCanonical b.sources
      → resolve (dataset_resolver m) ws b ≡ ok l
      → any (DashboardStore.reads d.id d.location) b.sources ≡ shows l.sources
  unfolding resolve
  resolve-agree b l canonical h =
      let (out, p, h1) = bind-eq-ok (resolve_all (dataset_resolver m) ws b.sources) _ h in
      subst (λ x. any (DashboardStore.reads d.id d.location) b.sources ≡ shows x.sources)
        (ok-injective h1) (resolve_all-agree b.sources out canonical p)

-- On well-formed in-memory catalogs whose stored locations are in canonical form, a dashboard is among
-- those that read a visible dataset exactly where the lineage it is opened with shows that dataset.
pub lineage-agree :
    ⦃u : Casing⦄ (s : Services) (ws board : Text) (d : Dataset) (b : Dashboard) (l : Lineage)
    → Kept.IsWellFormed s.datasets
    → Register.IsWellFormed s.boards
    → DataStore.get s.datasets ws d.id ≡ ok d
    → DashboardService.get (dataset_resolver s.datasets) s.boards ws board ≡ ok (b, l)
    → HasCanonicalSources s.boards
    → any (λ x. x.id == b.id) (DashboardStore.reading_dataset s.boards ws d.id d.location)
      ≡ any (λ x. any (λ r. r.id == d.id) x.datasets) l.sources
unfolding DashboardService.get DashboardStore.get DashboardStore.live
lineage-agree s ws board d b l wf wf_boards visible h canonical =
    let (b', got, h1) = bind-eq-ok (DashboardStore.get s.boards ws board) _ h in
    let (l', resolved, h2) = bind-eq-ok (resolve (dataset_resolver s.datasets) ws b') _ h1 in
    let same = ok-injective h2 in
    let got_b : DashboardStore.get s.boards ws board ≡ ok b =
      subst (λ x. DashboardStore.get s.boards ws board ≡ ok x) (ap (λ x. x.0) same) got in
    let row : GoMap.get board (s.boards.by_ws ws) ≡ some b = ground arith in
    let resolved_b : resolve (dataset_resolver s.datasets) ws b ≡ ok l =
      subst (λ x. resolve (dataset_resolver s.datasets) ws x.0 ≡ ok x.1) same resolved in
    any-reading_dataset s.boards ws board d b wf_boards got_b
    ∙ resolve-agree s.datasets ws d wf visible b l (canonical ws board b (row)) resolved_b
