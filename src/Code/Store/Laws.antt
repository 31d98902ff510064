-- ===== src/Code/Store/Laws.antt =====
-- A published version never changes (internal/code/memory.go).
use booth_catalog.Prelude.{
  true, false, List, [], ◌∷◌, ◌++◌, suc, eq_refl, nat_eq, list_eq, if◌then◌else◌, case_option, none,
  some, any, length, ◌≡◌, refl, sym, ap, ◌∙◌, arith, Bool-cases, Option-cases, inl, inr,
}
use booth_catalog.Prelude.GoMap
use booth_catalog.Prelude.GoMap.Laws.{get-put}
use booth_catalog.Text.{Text}
use booth_catalog.Asset.Error.{ok, err, not_found}
use booth_catalog.Data.Store.Kept.{at_ws-here}
use booth_catalog.Code.Model.{Version}
use booth_catalog.Code.Store.{
  Item, MemoryStore, last_summary, view, numbered, write, find, get, has_label, published,
  add_version, first_labelled, get_version,
}

pub find-write : (m : MemoryStore) (ws id : Text) (r : Item) → find (write ws id r m) ws id ≡ some r
unfolding find
find-write m ws id r =
    ground (arith, at_ws-here ws (GoMap.put id r (m ws)) m, get-put id id r (m ws), eq_refl id)

pub first_labelled-append :
    (label : Text) (vs : List Version) (v : Version)
    → first_labelled label (vs ++ v ∷ [])
      ≡ case_option
          (first_labelled label vs)
          (if has_label label v then some v else none)
          (λ w. some w)
first_labelled-append label [] v = ground arith
first_labelled-append label (w ∷ vs) v = ground (arith, first_labelled-append label vs v)

first_labelled-none :
    (label : Text) (vs : List Version)
    → any (has_label label) vs ≡ false
    → first_labelled label vs ≡ none
first_labelled-none label [] h = refl
first_labelled-none label (v ∷ vs) h = ground (arith, first_labelled-none label vs)

first_labelled-any :
    (label : Text) (vs : List Version) (v : Version)
    → first_labelled label vs ≡ some v
    → any (has_label label) vs ≡ true
first_labelled-any label [] v h = absurd (ground arith)
first_labelled-any label (w ∷ vs) v h = ground (arith, first_labelled-any label vs v)

pub last_summary-append :
    (vs : List Version) (v : Version) → last_summary (vs ++ v ∷ []) ≡ some v.summary
last_summary-append [] v = refl
last_summary-append (w ∷ []) v = refl
last_summary-append (w ∷ x ∷ vs) v = last_summary-append (x ∷ vs) v

-- AddVersion never changes a version that GetVersion returns: the same label of the same entry
-- gives the same version after it, whether the call succeeded or not.
pub add_version-keeps :
    (m : MemoryStore) (ws id label : Text) (v w : Version)
    → get_version m ws id label ≡ ok w
    → get_version (add_version m ws id v).1 ws id label ≡ ok w
unfolding add_version get_version
add_version-keeps m ws id label v w h = elim (Option-cases (find m ws id)) [
  | inl p ↦ absurd (ground arith)
  | inr (r, p) ↦ elim (Bool-cases (any (has_label v.summary.version) r.versions)) [
    | inl q ↦ rw (p, q) (ground arith)
    | inr q ↦
        rw (p, q, find-write m ws id (published r v))
          (ground
            (arith, first_labelled-append label r.versions (numbered (suc (length r.versions)) v)))
  ]
]

pub add_version-get :
    (m : MemoryStore) (ws id : Text) (v w : Version)
    → (add_version m ws id v).0 ≡ ok w
    → (get_version m ws id v.summary.version ≡ err not_found)
      × (get_version (add_version m ws id v).1 ws id v.summary.version ≡ ok w)
      × ((r : Item) × (find m ws id ≡ some r)
          × (w ≡ numbered (suc (length r.versions)) v)
          × (get (add_version m ws id v).1 ws id ≡ ok (view (published r v)))
          × ((view (published r v)).latest ≡ some w.summary))
unfolding add_version get_version get
add_version-get m ws id v w h = elim (Option-cases (find m ws id)) [
  | inl p ↦ absurd (ground arith)
  | inr (r, p) ↦ elim (Bool-cases (any (has_label v.summary.version) r.versions)) [
    | inl q ↦ absurd (ground arith)
    | inr q ↦
        let e : numbered (suc (length r.versions)) v ≡ w = ground arith in
        rw (p, q, find-write m ws id (published r v))
          (
            ground (arith, first_labelled-none v.summary.version r.versions q),
            ground (
              arith,
              first_labelled-append v.summary.version r.versions
                  (numbered (suc (length r.versions)) v),
              first_labelled-none v.summary.version r.versions q,
              eq_refl v.summary.version,
            ),
            (
              r,
              refl,
              sym e,
              refl,
              last_summary-append r.versions (numbered (suc (length r.versions)) v)
                  ∙ ap (λ x. some x.summary) e,
            ),
          )
  ]
]
