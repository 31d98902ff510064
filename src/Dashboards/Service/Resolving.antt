-- ===== src/Dashboards/Service/Resolving.antt =====
-- Lineage is never made up (internal/dashboards/service.go: resolve).
use booth_catalog.Prelude.{
  List, [], ◌∷◌, map, All, none, some, ◌≡◌, ◌⊎◌, inl, inr, refl, ap, sym, ◌∙◌, subst, arith,
  Option-cases,
}
use booth_catalog.Text.{Text}
use booth_catalog.Asset.Error.{ok, ok-injective, bind-eq-ok}
use booth_catalog.Dashboards.Model.{SourceType, Source, Dashboard}
use booth_catalog.Dashboards.Service.{
  DatasetRef, DatasetResolver, ResolvedSource, Lineage, datasets_as, as_list, datasets_of,
  resolve_all, resolve,
}

-- What the datasets of a source are, by the type of the source: those that the catalog answers for its
-- dataset or for its location, and none otherwise.
abbrev pub IsAnswered : DatasetResolver → Text → Source → List DatasetRef → SourceType → Type 0
IsAnswered r ws s ds SourceType.dataset =
    ((r.by_id ws s.dataset_id ≡ ok none) × (ds ≡ []))
    ⊎ ((ref : DatasetRef) × (r.by_id ws s.dataset_id ≡ ok (some ref)) × (ds ≡ ref ∷ []))
IsAnswered r ws s ds SourceType.location =
    r.by_location ws (record { backend_id = s.backend_id; path = s.path }) ≡ ok ds
IsAnswered r ws s ds SourceType.external = ds ≡ []
IsAnswered r ws s ds (SourceType.other t) = ds ≡ []

abbrev pub IsHonest : DatasetResolver → Text → ResolvedSource → Type 0
IsHonest r ws s = IsAnswered r ws s.source s.datasets s.source.type

datasets_as-IsAnswered :
    (r : DatasetResolver) (ws : Text) (s : Source) (ds : List DatasetRef) (t : SourceType)
    → datasets_as t r ws s ≡ ok ds
    → IsAnswered r ws s ds t
datasets_as-IsAnswered r ws s ds SourceType.dataset h =
    let (ref, p, h1) = bind-eq-ok (r.by_id ws s.dataset_id) (λ ref. ok (as_list ref)) h in
    elim (Option-cases ref) [
      | inl q ↦ inl (p ∙ ap ok q, sym (ok-injective h1) ∙ ap as_list q)
      | inr (x, q) ↦ inr (x, p ∙ ap ok q, sym (ok-injective h1) ∙ ap as_list q)
    ]
datasets_as-IsAnswered r ws s ds SourceType.location h = h
datasets_as-IsAnswered r ws s ds SourceType.external h = sym (ok-injective h)
datasets_as-IsAnswered r ws s ds (SourceType.other t) h = sym (ok-injective h)

datasets_of-IsAnswered :
    (r : DatasetResolver) (ws : Text) (s : Source) (ds : List DatasetRef)
    → datasets_of r ws s ≡ ok ds
    → IsAnswered r ws s ds s.type
unfolding datasets_of
datasets_of-IsAnswered r ws s ds h = datasets_as-IsAnswered r ws s ds s.type h

resolve_all-IsHonest :
    (r : DatasetResolver) (ws : Text) (ss : List Source) (out : List ResolvedSource)
    → resolve_all r ws ss ≡ ok out
    → (map (λ x. x.source) out ≡ ss) × All (IsHonest r ws) out
unfolding resolve_all
resolve_all-IsHonest r ws [] [] h = (refl, tt)
resolve_all-IsHonest r ws [] (_ ∷ _) h = absurd (ground arith)
resolve_all-IsHonest r ws (s ∷ ss) out h =
    let (ds, p, h1) = bind-eq-ok (datasets_of r ws s) _ h in
    let (rest, q, h2) = bind-eq-ok (resolve_all r ws ss) _ h1 in
    let (same, honest) = resolve_all-IsHonest r ws ss rest q in
    let e : ◌≡◌ {A = List ResolvedSource} (record { source = s; datasets = ds } ∷ rest) out =
      ground arith in
    subst (λ x. (map (λ y. y.source) x ≡ s ∷ ss) × All (IsHonest r ws) x) e
      (ap (λ x. s ∷ x) same, (datasets_of-IsAnswered r ws s ds p, honest))

-- The lineage of a dashboard has its sources, each once and in their order: a dataset source with the
-- dataset that the catalog answers for its ID, or none, a location source with those that it answers for
-- the location, and any other source with none; and it is complete exactly where the publisher said so.
pub resolve-IsHonest :
    (r : DatasetResolver) (ws : Text) (d : Dashboard) (l : Lineage)
    → resolve r ws d ≡ ok l
    → (map (λ x. x.source) l.sources ≡ d.sources)
      × All (IsHonest r ws) l.sources
      × (l.complete ≡ d.lineage_complete)
unfolding resolve
resolve-IsHonest r ws d l h =
    let (out, p, h1) = bind-eq-ok (resolve_all r ws d.sources) _ h in
    let (same, honest) = resolve_all-IsHonest r ws d.sources out p in
    let e : ◌≡◌ {A = Lineage} (record { complete = d.lineage_complete; sources = out }) l =
      ground arith in
    subst
      (λ x.
        (map (λ y. y.source) x.sources ≡ d.sources)
        × All (IsHonest r ws) x.sources
        × (x.complete ≡ d.lineage_complete))
      e (same, honest, refl)
