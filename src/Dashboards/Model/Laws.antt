-- ===== src/Dashboards/Model/Laws.antt =====
-- What a normalized upsert is (internal/dashboards/model.go).
use booth_catalog.Prelude.{
  ℕ, zero, Bool, true, false, not, ◌||◌, List, [], ◌∷◌, ◌++◌, leb, ◌≤◌, suc, ◌==◌, eq_iff, nat_eq,
  list_eq, any, length, length-append, ◌≡◌, refl, sym, ap, ◌∙◌, All, eq_refl, subst, arith,
  Bool-cases, inl, inr,
}
use booth_catalog.Text.{Text, txt, has_prefix, contains_any, byte_len, trim_space}
use booth_catalog.Asset.Error.{Result, ok, err, refuse_if, bind-eq-ok, ok-injective}
use booth_catalog.Regexp.{matches}
use booth_catalog.Asset.Validation.{text, valid_workspace}
use booth_catalog.Data.Upsert.{module_re, is_zero}
use booth_catalog.Dashboards.Model.{
  Source, source_eq, normalize_source, Upsert, keep_source, keep_result, keep_sources, canonical,
  complete_if, normalize, max_external_id, max_name, max_description, max_owner, max_sources,
  max_path, normalize_path, check_path, is_unsafe,
}

-- A path is empty or one within the shell: it begins with exactly one slash and has no backslash,
-- blank, control character or NUL.
abbrev pub IsShellPath : Text → Type 0
IsShellPath [] = Unit
IsShellPath (c ∷ p) =
    (c ≡ b'/')
    × (has_prefix (c ∷ p) (b'/' ∷ b'/' ∷ []) ≡ false)
    × (contains_any (c ∷ p) (b'\\' ∷ 0 ∷ []) ≡ false)
    × (any is_unsafe (c ∷ p) ≡ false)
    × (byte_len (c ∷ p) ≤ max_path)

check_path-IsShellPath : (p out : Text) → check_path p ≡ ok out → (out ≡ p) × IsShellPath p
check_path-IsShellPath [] out h = ground arith
check_path-IsShellPath (c ∷ p) out h = ground (arith, eq_iff c b'/')

-- A path that was accepted is the trimmed path, and is empty or one within the shell, of at most
-- 500 bytes.
pub normalize_path-IsShellPath :
    (p out : Text) → normalize_path p ≡ ok out → (out ≡ trim_space p) × IsShellPath out
unfolding normalize_path
normalize_path-IsShellPath p out h =
    let (same, is) = check_path-IsShellPath (trim_space p) out h in
    (same, subst IsShellPath (sym same) is)

-- No source stands twice.
abbrev pub IsUnique : List Source → Type 0
IsUnique [] = Unit
IsUnique (s ∷ ss) = (any (λ k. k == s) ss ≡ false) × IsUnique ss

any-append :
    (p : Source → Bool) (ss : List Source) (s : Source) → any p (ss ++ s ∷ []) ≡ (any p ss || p s)
any-append p [] s = ground arith
any-append p (x ∷ ss) s = ground (arith, any-append p ss s)

IsUnique-append :
    (ss : List Source) (s : Source)
    → IsUnique ss
    → any (λ k. k == s) ss ≡ false
    → IsUnique (ss ++ s ∷ [])
IsUnique-append [] s u h = (refl, tt)
IsUnique-append (x ∷ ss) s u h = (
  ground (arith, any-append (λ k. k == x) ss s, eq_iff x s, eq_iff s x),
  IsUnique-append ss s u.1 (ground arith),
)

abbrev pub IsKept : List Source → Type 0
IsKept kept = (length kept ≤ max_sources) × IsUnique kept

keep_result-IsKept :
    (kept : List Source) (dropped : ℕ) (r : Result Source)
    → IsKept kept
    → IsKept (keep_result kept dropped r).0
keep_result-IsKept kept dropped (err e) h = h
keep_result-IsKept kept dropped (ok s) h = elim (Bool-cases (leb max_sources (length kept))) [
  | inl p ↦ rw p h
  | inr p ↦ elim (Bool-cases (any (λ k. k == s) kept)) [
    | inl q ↦ rw (p, q) h
    | inr q ↦ rw (p, q) (ground (arith, length-append kept (s ∷ [])), IsUnique-append kept s h.1 q)
  ]
]

keep_source-IsKept :
    (raw : Source) (acc : List Source × ℕ) → IsKept acc.0 → IsKept (keep_source raw acc).0
unfolding keep_source
keep_source-IsKept raw (kept, dropped) h = keep_result-IsKept kept dropped (normalize_source raw) h

keep_sources-IsKept :
    (acc : List Source × ℕ) (raws : List Source) → IsKept acc.0 → IsKept (keep_sources acc raws).0
unfolding keep_sources
keep_sources-IsKept acc [] h = h
keep_sources-IsKept acc (raw ∷ raws) h =
    keep_sources-IsKept (keep_source raw acc) raws (keep_source-IsKept raw acc h)

-- A source that was given is among those that are kept, in the form that Normalize gives it.
abbrev pub IsAmong : List Source → Source → Type 0
IsAmong kept raw = (s : Source) × (normalize_source raw ≡ ok s) × (any (λ k. k == s) kept ≡ true)

-- What one round keeps, and what it says if nothing has been dropped after it.
keep_result-keeps :
    (kept : List Source) (dropped : ℕ) (r : Result Source) (s : Source)
    → any (λ k. k == s) kept ≡ true
    → any (λ k. k == s) (keep_result kept dropped r).0 ≡ true
keep_result-keeps kept dropped (err e) s h = h
keep_result-keeps kept dropped (ok x) s h = ground (arith, any-append (λ k. k == s) kept x)

keep_result-counts :
    (kept : List Source) (dropped : ℕ) (r : Result Source)
    → (keep_result kept dropped r).1 ≡ 0
    → (dropped ≡ 0)
      × ((s : Source) × (r ≡ ok s) × (any (λ k. k == s) (keep_result kept dropped r).0 ≡ true))
keep_result-counts kept dropped (err e) h = absurd (ground arith)
keep_result-counts kept dropped (ok s) h =
    (ground arith, (s, refl, ground (arith, any-append (λ k. k == s) kept s, eq_refl s)))

keep_sources-keeps :
    (acc : List Source × ℕ) (raws : List Source) (s : Source)
    → any (λ k. k == s) acc.0 ≡ true
    → any (λ k. k == s) (keep_sources acc raws).0 ≡ true
unfolding keep_sources keep_source
keep_sources-keeps acc [] s h = h
keep_sources-keeps (kept, dropped) (raw ∷ raws) s h =
    keep_sources-keeps (keep_source raw (kept, dropped)) raws s
      (keep_result-keeps kept dropped (normalize_source raw) s h)

keep_sources-All-IsAmong :
    (acc : List Source × ℕ) (raws : List Source)
    → (keep_sources acc raws).1 ≡ 0
    → (acc.1 ≡ 0) × All (IsAmong (keep_sources acc raws).0) raws
unfolding keep_sources keep_source
keep_sources-All-IsAmong acc [] h = (h, tt)
keep_sources-All-IsAmong (kept, dropped) (raw ∷ raws) h =
    let (none_yet, rest) = keep_sources-All-IsAmong (keep_source raw (kept, dropped)) raws h in
    let (none_before, (s, p, here)) =
      keep_result-counts kept dropped (normalize_source raw) none_yet in
    (none_before, ((s, p, keep_sources-keeps (keep_source raw (kept, dropped)) raws s here), rest))

complete_if-honest :
    (n : ℕ) (claimed : Bool) → complete_if n claimed ≡ true → (claimed ≡ true) × (n ≡ 0)
complete_if-honest zero claimed h = (h, refl)
complete_if-honest (suc n) claimed h = absurd (ground arith)

-- What an accepted upsert is made of.
pub normalize-eq-ok :
    (u out : Upsert) (dropped : ℕ)
    → normalize u ≡ ok (out, dropped)
    → (path : Text) × (normalize_path u.path ≡ ok path)
      × (path ≡ out.path)
      × (keep_sources ([], 0) u.sources ≡ (out.sources, dropped))
      × (complete_if dropped u.lineage_complete ≡ out.lineage_complete)
unfolding normalize
normalize-eq-ok u out dropped h =
    let (_, _, h1) =
      bind-eq-ok (refuse_if (not (valid_workspace u.workspace)) (txt "workspace")) _ h in
    let (_, _, h2) =
      bind-eq-ok (refuse_if (not (matches module_re u.source_module)) (txt "publishedBy")) _ h1 in
    let (external_id, _, h3) =
      bind-eq-ok (text (txt "dashboardId") u.external_id max_external_id true false) _ h2 in
    let (name, _, h4) = bind-eq-ok (text (txt "name") u.name max_name true false) _ h3 in
    let (description, _, h5) =
      bind-eq-ok (text (txt "description") u.description max_description false true) _ h4 in
    let (owner, _, h6) = bind-eq-ok (text (txt "owner") u.owner max_owner false false) _ h5 in
    let (path, p, h7) = bind-eq-ok (normalize_path u.path) _ h6 in
    let (_, _, h8) = bind-eq-ok (refuse_if (is_zero u.at) (txt "publishedAt")) _ h7 in
    let loop = keep_sources ([], 0) u.sources in
    let e : ◌≡◌ {A = Upsert × ℕ} (canonical u external_id name description owner path, loop.1)
        (out, dropped) =
      ok-injective h8 in
    subst
      (λ x.
        (path : Text) × (normalize_path u.path ≡ ok path)
        × (path ≡ x.0.path)
        × (loop ≡ (x.0.sources, x.1))
        × (complete_if x.1 u.lineage_complete ≡ x.0.lineage_complete))
      e (path, p, refl, refl, refl)

-- An accepted upsert has at most 200 sources, none twice; its path is one within the shell; and its
-- lineage is complete only where the publisher said so and every source that was given is valid and,
-- normalized, among those kept.
pub normalize-IsKept :
    (u out : Upsert) (dropped : ℕ)
    → normalize u ≡ ok (out, dropped)
    → IsKept out.sources
      × IsShellPath out.path
      × (out.lineage_complete ≡ true
          → (u.lineage_complete ≡ true) × All (IsAmong out.sources) u.sources)
normalize-IsKept u out dropped h =
    let (path, p, same, loop, claimed) = normalize-eq-ok u out dropped h in
    (
      subst (λ x. IsKept x.0) loop (keep_sources-IsKept ([], 0) u.sources (ground arith)),
      subst IsShellPath same (normalize_path-IsShellPath u.path path p).1,
      λ complete.
          let (said, zero_dropped) =
            complete_if-honest dropped u.lineage_complete (claimed ∙ complete) in
          (
            said,
            subst (λ x. All (IsAmong x.0) u.sources) loop
                (keep_sources-All-IsAmong ([], 0) u.sources (ap (λ x. x.1) loop ∙ zero_dropped)).1,
          ),
    )
