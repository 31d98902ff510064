-- ===== src/Asset/Location/Laws.antt =====
-- Canonical locations, and containment of paths as a prefix of their segments.
use mathlib.Core.List.{append-nil, append_assoc}
use booth_catalog.Prelude.{
  ◌≤◌, ◌≡◌, ◌≢◌, refl, sym, ap, subst, ◌∙◌, ◌↔◌, ◌⊎◌, inl, inr, true, false, List, [], ◌∷◌, ◌++◌,
  arith, eq_refl, eq_iff, nat_eq, list_eq, All,
}
use booth_catalog.Text.{Text, txt, byte_len, trim_suffix, split, join, contains_any, has_prefix}
use booth_catalog.Text.Split.{
  split-IsCons, split-append, join-split, join-append, trim_suffix-cases, has_prefix_sound,
  has_prefix-append,
}
use booth_catalog.Regexp.{matches}
use booth_catalog.Asset.Error.{ok}
use booth_catalog.Asset.Location.{
  Location, backend_id_re, max_path_len, check_segments, check_path, normalize_location,
  path_contains,
}

-- The segments of a path; the root has none.
abbrev pub segments : Text → List Text
segments [] = []
segments (c ∷ p) = split b'/' (c ∷ p)

abbrev pub IsSegment : Text → Type 0
IsSegment seg = (seg ≢ []) × (seg ≢ txt ".") × (seg ≢ txt "..")

check_segments_iff :
    (field : Text) (segs : List Text) → (check_segments field segs ≡ ok tt) ↔ All IsSegment segs
check_segments_iff field [] = (λ h. tt, λ h. refl)
check_segments_iff field (seg ∷ segs) =
    let (to, from) = check_segments_iff field segs in
    (
      λ h. (
        (
          ground (arith, eq_iff seg []),
          ground (arith, eq_iff seg (txt "."), eq_iff seg (txt "..")),
          ground (arith, eq_iff seg (txt "."), eq_iff seg (txt "..")),
        ),
        to (ground arith),
      ),
      λ (h, hs).
          ground (arith, eq_iff seg [], eq_iff seg (txt "."), eq_iff seg (txt ".."), from hs),
    )

check_path_iff : (field p : Text) → (check_path field p ≡ ok tt) ↔ All IsSegment (segments p)
check_path_iff field [] = (λ h. tt, λ h. refl)
check_path_iff field (c ∷ p) = check_segments_iff field (split b'/' (c ∷ p))

-- A canonical location: a backend ID by its grammar, and a relative path of bounded length with no
-- NUL, backslash, empty segment, "." or "..".
pub record IsCanonical (l : Location) : Type 0 where
  pub backend : matches backend_id_re l.backend_id ≡ true
  pub fits : byte_len l.path ≤ max_path_len
  pub plain : contains_any l.path (0 ∷ b'\\' ∷ []) ≡ false
  pub relative : All IsSegment (segments l.path)

All-last {ℓ κ} : {A : Type ℓ} (P : A → Type κ) (xs : List A) (x : A) → All P (xs ++ x ∷ []) → P x
All-last P [] x (h, _) = h
All-last P (y ∷ ys) x (_, h) = All-last P ys x h

segments-concat : (p : Text) → segments (p ++ b'/' ∷ []) ≡ split b'/' p ++ [] ∷ []
segments-concat [] = unfold split in refl
segments-concat (c ∷ p) =
    split-append b'/' (c ∷ p) [] ∙ ap (λ l. split b'/' (c ∷ p) ++ l) (unfold split in refl)

-- A path of proper segments ends in no slash.
trim_suffix_of_IsSegment : (p : Text) → All IsSegment (segments p) → trim_suffix b'/' p ≡ p
trim_suffix_of_IsSegment p h = elim (trim_suffix-cases b'/' p) [
  | inl e ↦ e
  | inr (t, e) ↦
      absurd
        ((All-last IsSegment (split b'/' t) [] (rw (ap segments e, segments-concat t) at h)).0 refl)
]

-- What the tests of `NormalizeLocation` have established once they have passed.
abbrev pub trimmed : Location → Location
trimmed l = record { backend_id = l.backend_id; path = trim_suffix b'/' l.path }

module _ (field : Text) (l : Location) where
  normalize_location_sound :
      (l' : Location)
      → normalize_location field l ≡ ok l'
      → (l' ≡ (trimmed l)) × IsCanonical (trimmed l)
  unfolding normalize_location
  normalize_location_sound l' h = (
    ground arith,
    record {
      backend = ground arith;
      fits = ground arith;
      plain = ground arith;
      relative = (check_path_iff (field ++ txt ".path") (trimmed l).path).0 (ground arith);
    },
  )

  normalize_location_complete :
      IsCanonical (trimmed l) → normalize_location field l ≡ ok (trimmed l)
  unfolding normalize_location
  normalize_location_complete c =
      let segs = (check_path_iff (field ++ txt ".path") (trimmed l).path).1 c.relative in
      ground (arith, segs, c.backend, c.fits, c.plain)

  -- A location is accepted exactly if, less one trailing slash, it is canonical, and that is what
  -- is stored.
  pub normalize_location_iff :
      (l' : Location)
      → (normalize_location field l ≡ ok l') ↔ ((l' ≡ (trimmed l)) × IsCanonical (trimmed l))
  normalize_location_iff l' =
      (normalize_location_sound l', λ (e, c). normalize_location_complete c ∙ ap ok (sym e))

-- A stored location is stored again as it is.
pub normalize_location_idem :
    (field : Text) (l l' : Location)
    → normalize_location field l ≡ ok l'
    → normalize_location field l' ≡ ok l'
normalize_location_idem field l l' h =
    let (e, c) = (normalize_location_iff field l l').0 h in
    let same : trimmed (trimmed l) ≡ trimmed l =
      ap (λ p. record { backend_id = l.backend_id; path = p })
        (trim_suffix_of_IsSegment (trimmed l).path c.relative) in
    rw e
      (normalize_location_complete field (trimmed l) (subst IsCanonical (sym same) c) ∙ ap ok same)

split-injective : (s t : Text) → split b'/' s ≡ split b'/' t → s ≡ t
split-injective s t h = sym (join-split b'/' s) ∙ ap (join (b'/' ∷ [])) h ∙ join-split b'/' t

segments-cons : (s t : Text) → segments (s ++ b'/' ∷ t) ≡ split b'/' s ++ split b'/' t
segments-cons [] t = unfold split in refl
segments-cons (c ∷ s) t = split-append b'/' (c ∷ s) t

contains-tests :
    (container p : Text)
    → path_contains container p ≡ true
    → (container ≡ []) ⊎ (p ≡ container) ⊎ (has_prefix p (container ++ b'/' ∷ []) ≡ true)
unfolding path_contains
contains-tests container p h = ground (arith, eq_iff container [], eq_iff p container)

contains-cases :
    (container p : Text)
    → path_contains container p ≡ true
    → (container ≡ []) ⊎ (p ≡ container) ⊎ ((t : Text) × (p ≡ container ++ b'/' ∷ t))
contains-cases container p h = elim (contains-tests container p h) [
  | inl e ↦ inl e
  | inr (inl e) ↦ inr (inl e)
  | inr (inr e) ↦
      let (t, et) = has_prefix_sound p (container ++ b'/' ∷ []) e in
      inr (inr (t, et ∙ append_assoc container (b'/' ∷ []) t))
]

path_contains_sound :
    (container p : Text)
    → path_contains container p ≡ true
    → (rest : List Text) × (segments p ≡ segments container ++ rest)
path_contains_sound [] p h = (segments p, refl)
path_contains_sound (c ∷ s) p h = elim (contains-cases (c ∷ s) p h) [
  | inl e ↦ absurd (cc)
  | inr (inl e) ↦ ([], ap segments e ∙ sym (append-nil _))
  | inr (inr (t, e)) ↦ (split b'/' t, ap segments e ∙ segments-cons (c ∷ s) t)
]

path_contains_self : (p : Text) → path_contains p p ≡ true
unfolding path_contains
path_contains_self p = ground (arith, eq_refl p)

path_contains_below : (p t : Text) → path_contains p (p ++ b'/' ∷ t) ≡ true
unfolding path_contains
path_contains_below p t =
    let here = rw (append_assoc p (b'/' ∷ []) t) at (has_prefix-append (p ++ b'/' ∷ []) t) in
    ground (arith, here)

path_contains_root : (p : Text) → path_contains [] p ≡ true
unfolding path_contains
path_contains_root p = ground (arith, eq_refl {A = Text} [])

path_contains_complete :
    (container p : Text) (rest : List Text)
    → segments p ≡ segments container ++ rest
    → path_contains container p ≡ true
path_contains_complete [] p rest h = path_contains_root p
path_contains_complete (c ∷ s) [] rest h =
    let (x, xs, e) = split-IsCons b'/' (c ∷ s) in cc (rw e at h)
path_contains_complete (c ∷ s) (d ∷ p) [] h =
    rw (split-injective (d ∷ p) (c ∷ s) (h ∙ append-nil _)) (path_contains_self (c ∷ s))
path_contains_complete (c ∷ s) (d ∷ p) (r ∷ rest) h =
    let whole : d ∷ p ≡ (c ∷ s) ++ b'/' ∷ join (b'/' ∷ []) (r ∷ rest) =
      sym (join-split b'/' (d ∷ p))
      ∙ ap (join (b'/' ∷ [])) h
      ∙ join-append b'/' (split b'/' (c ∷ s)) (r ∷ rest) (split-IsCons b'/' (c ∷ s)) (r, rest, refl)
      ∙ ap (λ t. t ++ b'/' ∷ join (b'/' ∷ []) (r ∷ rest)) (join-split b'/' (c ∷ s)) in
    rw whole (path_contains_below (c ∷ s) (join (b'/' ∷ []) (r ∷ rest)))

-- `container` contains `p` exactly if the segments of `container` begin those of `p`.
pub path_contains_iff :
    (container p : Text)
    → (path_contains container p ≡ true)
      ↔ ((rest : List Text) × (segments p ≡ segments container ++ rest))
path_contains_iff container p =
    (path_contains_sound container p, λ (rest, h). path_contains_complete container p rest h)
