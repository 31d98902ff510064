-- ===== src/Dashboards/Model/Canonical.antt =====
-- The sources that Upsert.Normalize keeps (internal/dashboards/model.go), and that the store then holds.
use booth_catalog.Prelude.{
  ℕ, true, false, List, [], ◌∷◌, ◌++◌, leb, ◌==◌, any, length, All, ◌≡◌, refl, subst, arith,
  Bool-cases, inl, inr,
}
use booth_catalog.Text.{txt}
use booth_catalog.Asset.Error.{Result, ok, err, ok-injective, bind-eq-ok}
use booth_catalog.Asset.Location.{Location, normalize_location}
use booth_catalog.Asset.Location.Laws.{normalize_location_idem}
use booth_catalog.Asset.Validation.{text}
use booth_catalog.Dashboards.Model.{
  max_source_text, max_sources, SourceType, Source, source_eq, normalize_as, normalize_source,
  keep_source, keep_result, keep_sources,
}

-- The location of a source is in canonical form.
abbrev pub IsCanonical : Source → Type 0
IsCanonical s =
    s.type ≡ SourceType.location
    → normalize_location (txt "location") (record { backend_id = s.backend_id; path = s.path })
      ≡ ok (record { backend_id = s.backend_id; path = s.path })

normalize_as-IsCanonical :
    (t : SourceType) (raw s : Source) → normalize_as t raw ≡ ok s → IsCanonical s
normalize_as-IsCanonical SourceType.dataset raw s h =
    let (id, _, h1) = bind-eq-ok (text (txt "datasetId") raw.dataset_id 64 true false) _ h in
    subst IsCanonical (ok-injective h1) (λ e. absurd (ground arith))
normalize_as-IsCanonical SourceType.location raw s h =
    let loc : Location = record { backend_id = raw.backend_id; path = raw.path } in
    let (l, p, h1) = bind-eq-ok (normalize_location (txt "location") loc) _ h in
    subst IsCanonical (ok-injective h1) (λ e. normalize_location_idem (txt "location") loc l p)
normalize_as-IsCanonical SourceType.external raw s h =
    let (name, _, h1) = bind-eq-ok (text (txt "name") raw.name max_source_text true false) _ h in
    let (system, _, h2) =
      bind-eq-ok (text (txt "system") raw.system max_source_text false false) _ h1 in
    subst IsCanonical (ok-injective h2) (λ e. absurd (ground arith))
normalize_as-IsCanonical (SourceType.other x) raw s h = λ e. absurd (ground arith)

All-append :
    (ss : List Source) (s : Source)
    → All IsCanonical ss
    → IsCanonical s
    → All IsCanonical (ss ++ s ∷ [])
All-append [] s h k = (k, tt)
All-append (x ∷ ss) s h k = (h.0, All-append ss s h.1 k)

keep_result-IsCanonical :
    (kept : List Source) (dropped : ℕ) (r : Result Source)
    → All IsCanonical kept
    → ((s : Source) → r ≡ ok s → IsCanonical s)
    → All IsCanonical (keep_result kept dropped r).0
keep_result-IsCanonical kept dropped (err e) h k = h
keep_result-IsCanonical kept dropped (ok s) h k =
    elim (Bool-cases (leb max_sources (length kept))) [
      | inl p ↦ rw p h
      | inr p ↦ elim (Bool-cases (any (λ x. x == s) kept)) [
        | inl q ↦ rw (p, q) h
        | inr q ↦ rw (p, q) (All-append kept s h (k s refl))
      ]
    ]

pub keep_sources-IsCanonical :
    (acc : List Source × ℕ) (raws : List Source)
    → All IsCanonical acc.0
    → All IsCanonical (keep_sources acc raws).0
unfolding keep_sources keep_source normalize_source
keep_sources-IsCanonical acc [] h = h
keep_sources-IsCanonical (kept, dropped) (raw ∷ raws) h =
    keep_sources-IsCanonical (keep_source raw (kept, dropped)) raws (
      keep_result-IsCanonical kept dropped (normalize_source raw) h
        (λ s e. normalize_as-IsCanonical raw.type raw s e))
