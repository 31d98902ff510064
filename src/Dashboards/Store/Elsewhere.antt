-- ===== src/Dashboards/Store/Elsewhere.antt =====
-- An event of one dashboard leaves the others as they are (internal/dashboards/memory.go: Apply and
-- Remove).
use booth_catalog.Prelude.{
  Bool, true, false, ◌&&◌, [], eq_iff, nat_eq, list_eq, ◌==◌, none, some, ◌≡◌, ◌≢◌, refl, sym,
  subst, arith, Bool-cases, Option-cases, inl, inr,
}
use booth_catalog.Prelude.GoMap
use booth_catalog.Prelude.GoMap.Laws.{get-put, get-delete}
use booth_catalog.Text.{Text}
use booth_catalog.Data.Model.{Time}
use booth_catalog.Data.Store.{flag}
use booth_catalog.Data.Store.Kept.{at_ws-here, at_ws-there}
use booth_catalog.Dashboards.Model.{Dashboard, Upsert}
use booth_catalog.Dashboards.Store.{
  MemoryStore, is_dead, is_published, write, bury, revive, find, is_stale, refreshed, apply, remove,
}
use booth_catalog.Dashboards.Store.Register.{
  IsWellFormed, row_of, row_published, find_row, nothing_published, find_of_get, register,
}
use booth_catalog.Dashboards.Store.Newest.{apply-register, remove-register}

-- A dashboard, as its publisher knows it: workspace, module, ID.
abbrev pub is_same : Text → Text → Text → Text → Text → Text → Bool
is_same ws sm ext ws' sm' ext' = ws == ws' && sm == sm' && ext == ext'

-- A row that is written under an ID that no other dashboard's row has.
abbrev pub IsOwn : MemoryStore → Text → Dashboard → Type 0
IsOwn m ws d =
    (cur : Dashboard) (sm ext : Text)
    → GoMap.get d.id (m.by_ws ws) ≡ some cur
    → is_published sm ext cur ≡ true
    → is_published sm ext d ≡ true

row_of-IsOwn :
    (m : MemoryStore) (ws sm ext new_id : Text) (created : Time) (d : Dashboard)
    → IsWellFormed m
    → GoMap.get new_id (m.by_ws ws) ≡ none
    → d.id ≡ (row_of m ws sm ext new_id created).id
    → is_published sm ext d ≡ true
    → IsOwn m ws d
row_of-IsOwn m ws sm ext new_id created d before fresh same is cur sm' ext' g t =
    elim (Option-cases (find m ws sm ext)) [
      | inl p ↦ let e : d.id ≡ new_id = ground arith in absurd (ground arith)
      | inr (row, p) ↦
          let (r, pub') = find_row m ws sm ext row before p in
          let e : d.id ≡ row.id = ground arith in
          let e' : row ≡ cur = ground arith in
          ground (
            arith,
            eq_iff row.source_module sm,
            eq_iff row.external_id ext,
            eq_iff d.source_module sm,
            eq_iff d.external_id ext,
          )
    ]

wrote_elsewhere :
    (m m' : MemoryStore) (ws : Text) (d : Dashboard)
    → IsWellFormed m
    → IsWellFormed m'
    → IsOwn m ws d
    → m'.by_ws ws ≡ GoMap.put d.id d (m.by_ws ws)
    → ((j : Text) → d.id ≢ j → flag j (m'.tombstoned ws) ≡ flag j (m.tombstoned ws))
    → (sm ext : Text) → is_published sm ext d ≡ false
    → register m' ws sm ext ≡ register m ws sm ext
wrote_elsewhere m m' ws d before after own rows others sm ext other =
    elim (Option-cases (find m ws sm ext)) [
      | inl p ↦ elim (Option-cases (find m' ws sm ext)) [
        | inl q ↦ rw (p, q) refl
        | inr (e, q) ↦
            let (g, t) = find_row m' ws sm ext e after q in
            absurd (
              ground (
                arith,
                get-put d.id e.id d (m.by_ws ws),
                eq_iff d.id e.id,
                nothing_published m ws sm ext e.id e p,
              ))
      ]
      | inr (cur, p) ↦
          let (g, t) = find_row m ws sm ext cur before p in
          let ne : d.id ≢ cur.id = λ e. ground (arith, own cur sm ext) in
          let q =
            find_of_get m' ws sm ext cur.id cur after
              (ground (arith, get-put d.id cur.id d (m.by_ws ws), eq_iff d.id cur.id)) t in
          rw (p, q) (ground (arith, others cur.id ne))
    ]

-- Another workspace, or another dashboard of this one.
elsewhere :
    (m m' : MemoryStore) (ws sm ext new_id : Text) (created : Time) (d : Dashboard)
    → IsWellFormed m
    → IsWellFormed m'
    → GoMap.get new_id (m.by_ws ws) ≡ none
    → d.id ≡ (row_of m ws sm ext new_id created).id
    → is_published sm ext d ≡ true
    → m'.by_ws ws ≡ GoMap.put d.id d (m.by_ws ws)
    → ((j : Text) → d.id ≢ j → flag j (m'.tombstoned ws) ≡ flag j (m.tombstoned ws))
    → ((w : Text) → ws ≢ w → (m'.by_ws w ≡ m.by_ws w) × (m'.tombstoned w ≡ m.tombstoned w))
    → (ws' sm' ext' : Text) → is_same ws sm ext ws' sm' ext' ≡ false
    → register m' ws' sm' ext' ≡ register m ws' sm' ext'
unfolding find
elsewhere m m' ws sm ext new_id created d before after fresh same is rows others there ws' sm' ext'
      h =
    elim (Bool-cases (ws == ws')) [
      | inl p ↦
          let e : ws ≡ ws' = (eq_iff ws ws').0 p in
          subst (λ w. register m' w sm' ext' ≡ register m w sm' ext') e
            (wrote_elsewhere m m' ws d before after
              (row_of-IsOwn m ws sm ext new_id created d before fresh same is) rows others sm' ext'
              (ground (
                arith,
                eq_iff d.source_module sm,
                eq_iff d.external_id ext,
                eq_iff d.source_module sm',
                eq_iff d.external_id ext',
                eq_iff sm sm',
                eq_iff ext ext',
              )))
      | inr p ↦ let (r, t) = there ws' (ground (arith, eq_iff ws ws')) in rw (r, t) refl
    ]

-- What an operation leaves, by the store that it is known to be.
abbrev pub IsElsewhere : MemoryStore → Text → Text → Text → MemoryStore → Type 0
IsElsewhere m ws sm ext r =
    (ws' sm' ext' : Text)
    → is_same ws sm ext ws' sm' ext' ≡ false
    → register r ws' sm' ext' ≡ register m ws' sm' ext'

-- On a well-formed store, and under an ID that no row of the workspace has, Apply leaves what can be
-- seen of every other dashboard as it was.
pub apply-IsElsewhere :
    (m : MemoryStore) (u : Upsert)
    → IsWellFormed m
    → GoMap.get u.new_id (m.by_ws u.workspace) ≡ none
    → IsElsewhere m u.workspace u.source_module u.external_id (apply m u).1
unfolding apply
apply-IsElsewhere m u before fresh =
    let ws = u.workspace in
    let row = row_of m ws u.source_module u.external_id u.new_id u.received_at in
    let d = refreshed u row in
    let d' = record d { created_at = u.received_at } in
    let is = row_published m ws u.source_module u.external_id u.new_id u.received_at before in
    let IsLeft : MemoryStore → Type 0 =
      λ x. IsWellFormed x → IsElsewhere m u.workspace u.source_module u.external_id x in
    let after = (apply-register m u before).0 in
    elim (Bool-cases (is_stale (find m ws u.source_module u.external_id) u.at)) [
      | inl p ↦ rw p (λ ws' sm' ext' h. refl)
      | inr p ↦ elim (Bool-cases (is_dead m ws row.id)) [
        | inl q ↦
            let m' = write ws d' (revive ws d.id m) in
            let e : (apply m u).1 ≡ m' = rw (p, q) refl in
            let dead = at_ws-here ws (GoMap.delete d.id (m.tombstoned ws)) m.tombstoned in
            subst IsLeft (sym e)
              (λ well ws' sm' ext' h.
                elsewhere m m' ws u.source_module u.external_id u.new_id u.received_at d' before
                  well fresh refl is (at_ws-here ws (GoMap.put d.id d' (m.by_ws ws)) m.by_ws)
                  (λ j h. ground (arith, dead, get-delete d.id j (m.tombstoned ws), eq_iff d.id j))
                  (λ w h. (at_ws-there ws w _ m.by_ws h, at_ws-there ws w _ m.tombstoned h)) ws' sm'
                  ext' h)
              after
        | inr q ↦
            let m' = write ws d m in
            let e : (apply m u).1 ≡ m' = rw (p, q) refl in
            subst IsLeft (sym e)
              (λ well ws' sm' ext' h.
                elsewhere m m' ws u.source_module u.external_id u.new_id u.received_at d before well
                  fresh refl is (at_ws-here ws (GoMap.put d.id d (m.by_ws ws)) m.by_ws)
                  (λ j h. refl) (λ w h. (at_ws-there ws w _ m.by_ws h, refl)) ws' sm' ext' h)
              after
      ]
    ]

-- So does Remove.
pub remove-IsElsewhere :
    (m : MemoryStore) (ws sm ext : Text) (at : Time) (new_id : Text)
    → IsWellFormed m
    → GoMap.get new_id (m.by_ws ws) ≡ none
    → IsElsewhere m ws sm ext (remove m ws sm ext at new_id).1
unfolding remove
remove-IsElsewhere m ws sm ext at new_id before fresh =
    let row = row_of m ws sm ext new_id at in
    let d = record row { updated_at = at; sources = [] } in
    let is = row_published m ws sm ext new_id at before in
    let IsLeft : MemoryStore → Type 0 = λ x. IsWellFormed x → IsElsewhere m ws sm ext x in
    let after = (remove-register m ws sm ext at new_id before).0 in
    elim (Bool-cases (is_stale (find m ws sm ext) at)) [
      | inl p ↦ rw p (λ ws' sm' ext' h. refl)
      | inr p ↦
          let m' = bury ws row.id (write ws d m) in
          let e : (remove m ws sm ext at new_id).1 ≡ m' = rw p refl in
          let dead = at_ws-here ws (GoMap.put row.id true (m.tombstoned ws)) m.tombstoned in
          subst IsLeft (sym e)
            (λ well ws' sm' ext' h.
              elsewhere m m' ws sm ext new_id at d before well fresh refl is
                (at_ws-here ws (GoMap.put d.id d (m.by_ws ws)) m.by_ws)
                (λ j h. ground (arith, dead, get-put d.id j true (m.tombstoned ws), eq_iff d.id j))
                (λ w h. (at_ws-there ws w _ m.by_ws h, at_ws-there ws w _ m.tombstoned h)) ws' sm'
                ext' h)
            after
    ]
