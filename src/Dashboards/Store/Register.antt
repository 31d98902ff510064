-- ===== src/Dashboards/Store/Register.antt =====
-- For one dashboard, the store is a register in which the newest event wins
-- (internal/dashboards/memory.go: Apply and Remove).
use booth_catalog.Prelude.{
  Bool, true, false, List, ltb, ◌==◌, eq_iff, eq_refl, nat_eq, list_eq, if◌then◌else◌, case_option,
  Option, none, some, ◌≡◌, ◌≢◌, sym, ap, subst, ◌∙◌, arith, Bool-cases, Option-cases, inl, inr,
}
use booth_catalog.Prelude.GoMap
use booth_catalog.Prelude.GoMap.{GoMap}
use booth_catalog.Prelude.GoMap.Laws.{
  HasDistinctKeys, HasDistinctKeys-put, get-put, find_sound, find_complete,
}
use booth_catalog.Text.{Text}
use booth_catalog.Data.Model.{Time}
use booth_catalog.Data.Store.{flag}
use booth_catalog.Dashboards.Model.{Source, Dashboard, Upsert}
use booth_catalog.Dashboards.Store.{
  MemoryStore, new_store, is_dead, is_published, find, blank, is_stale, or_blank,
}

-- The rows of a workspace: each under its own ID, one for each dashboard, and no tombstone without a row.
pub record IsConsistent (rows : GoMap Text Dashboard) (dead : GoMap Text Bool) : Type 0 where
  pub distinct : HasDistinctKeys rows
  pub keyed : (id : Text) (d : Dashboard) → GoMap.get id rows ≡ some d → d.id ≡ id
  pub single :
      (i j : Text) (d d' : Dashboard) (source_module external_id : Text)
      → GoMap.get i rows ≡ some d
      → GoMap.get j rows ≡ some d'
      → is_published source_module external_id d ≡ true
      → is_published source_module external_id d' ≡ true
      → i ≡ j
  pub buried : (id : Text) → flag id dead ≡ true → GoMap.get id rows ≢ none

abbrev pub IsWellFormed : MemoryStore → Type 0
IsWellFormed m = (ws : Text) → IsConsistent (m.by_ws ws) (m.tombstoned ws)

pub find_row :
    (m : MemoryStore) (ws sm ext : Text) (cur : Dashboard)
    → IsWellFormed m
    → find m ws sm ext ≡ some cur
    → (GoMap.get cur.id (m.by_ws ws) ≡ some cur) × (is_published sm ext cur ≡ true)
unfolding find
find_row m ws sm ext cur before h =
    elim (Option-cases (GoMap.find (λ id d. is_published sm ext d) (m.by_ws ws))) [
      | inl p ↦ absurd (ground arith)
      | inr ((k, v), p) ↦
          let (g, t) =
            find_sound (λ id d. is_published sm ext d) (m.by_ws ws) k v (before ws).distinct p in
          ground (arith, (before ws).keyed k v g)
    ]

pub nothing_published :
    (m : MemoryStore) (ws sm ext id : Text) (d : Dashboard)
    → find m ws sm ext ≡ none
    → GoMap.get id (m.by_ws ws) ≡ some d
    → is_published sm ext d ≡ false
unfolding find
nothing_published m ws sm ext id d h g =
    elim (Option-cases (GoMap.find (λ id d. is_published sm ext d) (m.by_ws ws))) [
      | inl p ↦ find_complete (λ id d. is_published sm ext d) (m.by_ws ws) id d p g
      | inr ((k, v), p) ↦ absurd (ground arith)
    ]

pub find_of_get :
    (m : MemoryStore) (ws sm ext id : Text) (d : Dashboard)
    → IsWellFormed m
    → GoMap.get id (m.by_ws ws) ≡ some d
    → is_published sm ext d ≡ true
    → find m ws sm ext ≡ some d
find_of_get m ws sm ext id d before g t = elim (Option-cases (find m ws sm ext)) [
  | inl p ↦ absurd (ground (arith, nothing_published m ws sm ext id d p g))
  | inr (cur, p) ↦
      let (row, is) = find_row m ws sm ext cur before p in
      ground (arith, (before ws).single cur.id id cur d sm ext row g is t)
]

-- Writing one row, whose tombstone may come or go.
put-IsConsistent :
    (rows : GoMap Text Dashboard) (dead dead' : GoMap Text Bool) (d : Dashboard)
    → IsConsistent rows dead
    → ((j : Text) → d.id ≢ j → flag j dead' ≡ flag j dead)
    → ((j : Text) (e : Dashboard) (source_module external_id : Text)
        → is_published source_module external_id d ≡ true
        → GoMap.get j rows ≡ some e
        → is_published source_module external_id e ≡ true
        → d.id ≡ j)
    → IsConsistent (GoMap.put d.id d rows) dead'
put-IsConsistent rows dead dead' d before others alone = record {
  distinct = HasDistinctKeys-put d.id d rows before.distinct;
  keyed = λ id e h. ground (arith, get-put d.id id d rows, eq_iff d.id id, before.keyed id e);
  single = λ i j e e' sm ext h k t t'. ground (
    arith,
    get-put d.id i d rows,
    get-put d.id j d rows,
    eq_iff d.id i,
    eq_iff d.id j,
    alone i e sm ext,
    alone j e' sm ext,
    before.single i j e e' sm ext,
  );
  buried =
      λ id h. ground (arith, get-put d.id id d rows, eq_iff d.id id, others id, before.buried id);
}

one_workspace :
    (ws : Text) (m m' : MemoryStore)
    → IsWellFormed m
    → IsConsistent (m'.by_ws ws) (m'.tombstoned ws)
    → ((w : Text) → ws ≢ w → (m'.by_ws w ≡ m.by_ws w) × (m'.tombstoned w ≡ m.tombstoned w))
    → IsWellFormed m'
one_workspace ws m m' before here there w = elim (Bool-cases (ws == w)) [
  | inl p ↦ subst (λ x. IsConsistent (m'.by_ws x) (m'.tombstoned x)) ((eq_iff ws w).0 p) here
  | inr p ↦ let (r, t) = there w (ground (arith, eq_iff ws w)) in rw (r, t) (before w)
]

-- The row that an event writes: the one found, or a blank one.
abbrev pub row_of : MemoryStore → Text → Text → Text → Text → Time → Dashboard
row_of m ws sm ext new_id created = or_blank (find m ws sm ext) (blank new_id ws sm ext created)

row_alone :
    (m : MemoryStore) (ws sm ext new_id : Text) (created : Time) (j : Text) (e : Dashboard)
    → IsWellFormed m
    → GoMap.get j (m.by_ws ws) ≡ some e
    → is_published sm ext e ≡ true
    → (row_of m ws sm ext new_id created).id ≡ j
row_alone m ws sm ext new_id created j e before g t = elim (Option-cases (find m ws sm ext)) [
  | inl p ↦ absurd (ground (arith, nothing_published m ws sm ext j e p g))
  | inr (cur, p) ↦
      let (row, is) = find_row m ws sm ext cur before p in
      rw p ((before ws).single cur.id j cur e sm ext row g is t)
]

pub row_published :
    (m : MemoryStore) (ws sm ext new_id : Text) (created : Time)
    → IsWellFormed m
    → is_published sm ext (row_of m ws sm ext new_id created) ≡ true
row_published m ws sm ext new_id created before = elim (Option-cases (find m ws sm ext)) [
  | inl p ↦ rw p (ground (arith, eq_refl sm, eq_refl ext))
  | inr (cur, p) ↦ rw p (find_row m ws sm ext cur before p).1
]

one_publication :
    (sm ext sm' ext' : Text) (d e : Dashboard)
    → is_published sm ext d ≡ true
    → is_published sm' ext' d ≡ true
    → is_published sm' ext' e ≡ true
    → is_published sm ext e ≡ true
one_publication sm ext sm' ext' d e h k t = ground (
  arith,
  eq_iff d.source_module sm,
  eq_iff d.source_module sm',
  eq_iff d.external_id ext,
  eq_iff d.external_id ext',
  eq_iff e.source_module sm,
  eq_iff e.source_module sm',
  eq_iff e.external_id ext,
  eq_iff e.external_id ext',
)

-- A store in which the row of a dashboard has been written: it is well formed, and finds that row.
pub wrote :
    (m m' : MemoryStore) (ws sm ext new_id : Text) (created : Time) (d : Dashboard)
    → IsWellFormed m
    → d.id ≡ (row_of m ws sm ext new_id created).id
    → is_published sm ext d ≡ true
    → m'.by_ws ws ≡ GoMap.put d.id d (m.by_ws ws)
    → ((j : Text) → d.id ≢ j → flag j (m'.tombstoned ws) ≡ flag j (m.tombstoned ws))
    → ((w : Text) → ws ≢ w → (m'.by_ws w ≡ m.by_ws w) × (m'.tombstoned w ≡ m.tombstoned w))
    → IsWellFormed m' × (find m' ws sm ext ≡ some d)
wrote m m' ws sm ext new_id created d before same is rows others there =
    let alone : (j : Text) (e : Dashboard) (sm' ext' : Text)
        → is_published sm' ext' d ≡ true
        → GoMap.get j (m.by_ws ws) ≡ some e
        → is_published sm' ext' e ≡ true
        → d.id ≡ j =
      λ j e sm' ext' h g t.
        same
        ∙ row_alone m ws sm ext new_id created j e before g
            (one_publication sm ext sm' ext' d e is h t) in
    let here =
      put-IsConsistent (m.by_ws ws) (m.tombstoned ws) (m'.tombstoned ws) d (before ws) others
        alone in
    let after =
      one_workspace ws m m' before (subst (λ x. IsConsistent x (m'.tombstoned ws)) (sym rows) here)
        there in
    (
      after,
      find_of_get m' ws sm ext d.id d after
          (rw rows (ground (arith, get-put d.id d.id d (m.by_ws ws), eq_refl d.id))) is,
    )

-- What a reader sees of a dashboard.
abbrev pub Content : Type 0
Content = Text × Text × Text × Text × Bool × List Source

abbrev pub content : Dashboard → Content
content d = (d.name, d.description, d.owner, d.path, d.lineage_complete, d.sources)

abbrev pub content_of : Upsert → Content
content_of u = (u.name, u.description, u.owner, u.path, u.lineage_complete, u.sources)

-- The time of the last event applied, and what it said: a content, or that the dashboard is gone.
abbrev pub Event : Type 0
Event = Time × Option Content

abbrev pub register : MemoryStore → Text → Text → Text → Option Event
register m ws sm ext =
    case_option (find m ws sm ext) none
      (λ d. some (d.updated_at, if is_dead m ws d.id then none else some (content d)))

-- The newest event wins, and of two at one time the later to arrive.
abbrev pub newer : Option Event → Event → Option Event
newer none e = some e
newer (some old) e = if ltb e.0 old.0 then some old else some e

pub stale-newer :
    (m : MemoryStore) (ws sm ext : Text) (e : Event)
    → is_stale (find m ws sm ext) e.0 ≡ true
    → register m ws sm ext ≡ newer (register m ws sm ext) e
stale-newer m ws sm ext e h = elim (Option-cases (find m ws sm ext)) [
  | inl p ↦ absurd (ground arith)
  | inr (cur, p) ↦ rw p (ground arith)
]

pub fresh-newer :
    (m m' : MemoryStore) (ws sm ext : Text) (e : Event) (d : Dashboard)
    → is_stale (find m ws sm ext) e.0 ≡ false
    → find m' ws sm ext ≡ some d
    → (d.updated_at, if is_dead m' ws d.id then none else some (content d)) ≡ e
    → register m' ws sm ext ≡ newer (register m ws sm ext) e
fresh-newer m m' ws sm ext e d h f same = elim (Option-cases (find m ws sm ext)) [
  | inl p ↦ rw (p, f) (ap some same)
  | inr (cur, p) ↦ rw (p, f) (ground arith)
]

pub new_store-IsWellFormed : IsWellFormed new_store
unfolding GoMap.get
new_store-IsWellFormed ws = record {
  distinct = tt;
  keyed = λ id d h. ground arith;
  single = λ i j d d' sm ext h k t t'. ground arith;
  buried = λ id h. absurd (ground arith);
}
