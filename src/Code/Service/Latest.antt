-- ===== src/Code/Service/Latest.antt =====
-- What "latest" means (internal/code/service.go: Publish and GetVersion).
use booth_catalog.Prelude.{
  ℕ, true, false, not, [], ◌==◌, eq_iff, eq_refl, eq_of_ne, any, ltb, nat_eq, list_eq, ◌≡◌, ◌≢◌,
  sym, ap, subst, ◌∙◌, arith, inl, inr,
}
use mathlib.Core.Bool.{false≢true}
use booth_catalog.Asset.Validation.{text}
use booth_catalog.Text.{Text, txt, trim_space, valid_string, byte_len}
use booth_catalog.Regexp.{matches}
use booth_catalog.Asset.Actor.{Actor}
use booth_catalog.Asset.Error.{ok, with_value, Result-cases, bind-eq-ok, refuse_if, refuse_if-eq-ok}
use booth_catalog.Data.Model.{Time}
use booth_catalog.Code.Model.{
  Version, VersionInput, latest_version, version_re, max_notes, normalize_version,
}
use booth_catalog.Code.Store.{MemoryStore, add_version, view, published, numbered}
use booth_catalog.Code.Store
use booth_catalog.Code.Store.Laws.{add_version-get}
use booth_catalog.Code.Service.{publish, unnumbered, latest_label, get_version}

-- "latest" is never the label of an accepted version.
pub label_is_not_latest :
    (max_source : ℕ) (i i' : VersionInput)
    → normalize_version max_source i ≡ ok i'
    → i'.version ≢ latest_version
unfolding normalize_version
label_is_not_latest max_source i i' h =
    let version = trim_space i.version in
    let (_, not_latest, h1) =
      bind-eq-ok (refuse_if (version == latest_version) (txt "version")) _ h in
    let (_, _, h2) =
      bind-eq-ok (refuse_if (not (matches version_re version)) (txt "version")) _ h1 in
    let (notes, _, h3) = bind-eq-ok (text (txt "notes") i.notes max_notes false true) _ h2 in
    let (_, _, h4) = bind-eq-ok (refuse_if (trim_space i.source == []) (txt "source")) _ h3 in
    let (_, _, h5) = bind-eq-ok (refuse_if (not (valid_string i.source)) (txt "source")) _ h4 in
    let (_, _, h6) = bind-eq-ok (refuse_if (any (λ c. c == 0) i.source) (txt "source")) _ h5 in
    let (_, _, h7) =
      bind-eq-ok (refuse_if (ltb max_source (byte_len i.source)) (txt "source")) _ h6 in
    let e : ◌≡◌ {A = VersionInput} (record { version = version; source = i.source; notes = notes })
        i' =
      ground arith in
    subst (λ x. x.version ≢ latest_version) e
      (λ same. false≢true (
        sym (refuse_if-eq-ok (version == latest_version) (txt "version") not_latest)
        ∙ (eq_iff version latest_version).1 same))

-- A version that Publish accepted is what GetVersion then returns, for its own label and for
-- "latest".
pub publish-latest :
    (max_source : ℕ) (m : MemoryStore) (ws : Text) (actor : Actor) (id : Text) (i : VersionInput)
    (now : Time) (w : Version)
    → (publish max_source m ws actor id i now).0 ≡ ok w
    → (get_version (publish max_source m ws actor id i now).1 ws id latest_version ≡ ok w)
      × (get_version (publish max_source m ws actor id i now).1 ws id w.summary.version ≡ ok w)
unfolding publish get_version latest_label
publish-latest max_source m ws actor id i now w h =
    elim (Result-cases (normalize_version max_source i)) [
      | inr (e, p) ↦ absurd (ground arith)
      | inl (i', p) ↦
          let v = unnumbered i' actor.display_name now in
          let done : (Store.add_version m ws id v).0 ≡ ok w =
            subst
              (λ x.
                (with_value m x
                  (λ j. Store.add_version m ws id (unnumbered j actor.display_name now))).0
                ≡ ok w)
              p h in
          let (_, stored, (r, _, same, entry, last)) = add_version-get m ws id v w done in
          let label : w.summary.version ≡ v.summary.version = ap (λ x. x.summary.version) same in
          let other =
            eq_of_ne w.summary.version latest_version (
              subst (λ x. x ≢ latest_version) (sym label)
                (label_is_not_latest max_source i i' p)) in
          let at_label =
            subst (λ x. Store.get_version (Store.add_version m ws id v).1 ws id x ≡ ok w)
              (sym label) stored in
          rw p (rw (eq_refl latest_version, entry, last) at_label, rw other at_label)
    ]
