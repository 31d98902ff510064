-- ===== src/Data/Store/Kept.antt =====
-- Every write of the store keeps the rows of every workspace consistent.
pub mod Table
pub mod Postgres
use booth_catalog.Prelude.{
  ℕ, Bool, true, false, not, ◌&&◌, ◌||◌, List, [], ◌∷◌, ltb, ◌==◌, Eq, eq_iff, eq_refl, nat_eq,
  list_eq, if◌then◌else◌, Option, none, some, any, ◌≡◌, ◌≢◌, refl, sym, ap, subst, ◌∙◌, arith,
  Bool-cases, Option-cases, inl, inr, ◌⊎◌,
}
use booth_catalog.Prelude.GoMap
use booth_catalog.Prelude.GoMap.{GoMap}
use booth_catalog.Prelude.GoMap.Laws.{
  HasDistinctKeys, get-put, get-delete, HasDistinctKeys-put, HasDistinctKeys-delete, find_sound,
  find_complete,
}
use booth_catalog.Text.{Text}
use booth_catalog.Data.Model.{Dataset, Format, iceberg, is_iceberg}
use booth_catalog.Data.Store.{
  MemoryStore, at_ws, write, flag, is_dead, is_table, lookup, lookup-eq-some, name_taken,
  find_table, create, update, updated, delete,
}
use booth_catalog.Data.Store.Invariant.{visible, IsConsistent, write-IsConsistent}

abbrev pub IsWellFormed : MemoryStore → Type 0
IsWellFormed m = (ws : Text) → IsConsistent ws (m.by_ws ws) (m.tombstoned ws)

-- A change of one workspace leaves the others consistent.
pub IsWellFormed_of_one :
    (ws : Text) (m m' : MemoryStore)
    → IsWellFormed m
    → IsConsistent ws (m'.by_ws ws) (m'.tombstoned ws)
    → ((w : Text) → ws ≢ w → (m'.by_ws w ≡ m.by_ws w) × (m'.tombstoned w ≡ m.tombstoned w))
    → IsWellFormed m'
IsWellFormed_of_one ws m m' before here there w = elim (Bool-cases (ws == w)) [
  | inl p ↦ subst (λ x. IsConsistent x (m'.by_ws x) (m'.tombstoned x)) ((eq_iff ws w).0 p) here
  | inr p ↦ let (r, t) = there w (ground (arith, eq_iff ws w)) in rw (r, t) (before w)
]

pub at_ws-here {ℓ} : {V : Type ℓ} (ws : Text) (v : V) (f : Text → V) → at_ws ws v f ws ≡ v
at_ws-here ws v f = ground (arith, eq_refl ws)

pub at_ws-there {ℓ} :
    {V : Type ℓ} (ws w : Text) (v : V) (f : Text → V) → ws ≢ w → at_ws ws v f w ≡ f w
at_ws-there ws w v f h = ground (arith, eq_iff ws w)

any_of_get :
    (p : Text × Dataset → Bool) (rows : GoMap Text Dataset) (id : Text) (d : Dataset)
    → any p rows ≡ false
    → GoMap.get id rows ≡ some d
    → p (id, d) ≡ false
unfolding GoMap.get
any_of_get p [] id d h g = cc
any_of_get p ((j, e) ∷ rows) id d h g = ground (arith, eq_iff j id, any_of_get p rows id d)

-- A name that is not taken stands in no other visible row.
pub name_taken_complete :
    (m : MemoryStore) (ws name except_id j : Text) (e : Dataset)
    → name_taken m ws name except_id ≡ false
    → except_id ≢ j
    → visible (m.by_ws ws) (m.tombstoned ws) j ≡ some e
    → e.name ≢ name
unfolding name_taken
name_taken_complete m ws name except_id j e h ne v = ground (
  arith,
  eq_iff j except_id,
  eq_iff e.name name,
  any_of_get (λ (id, d). not (id == except_id) && d.name == name && not (is_dead m ws id))
      (m.by_ws ws) j e h,
)

-- Writing one row over a store, with no tombstone of it.
pub write-IsWellFormed :
    (m : MemoryStore) (ws : Text) (d : Dataset)
    → IsWellFormed m
    → d.workspace ≡ ws
    → d.id ≢ []
    → is_dead m ws d.id ≡ false
    → ((j : Text) (e : Dataset)
        → d.id ≢ j
        → visible (m.by_ws ws) (m.tombstoned ws) j ≡ some e
        → e.name ≢ d.name)
    → ((j : Text) (e : Dataset) (source_module uuid : Text)
        → is_table source_module uuid d ≡ true
        → GoMap.get j (m.by_ws ws) ≡ some e
        → is_table source_module uuid e ≡ true
        → d.id ≡ j)
    → IsWellFormed (write ws d m)
write-IsWellFormed m ws d before here has_id live free alone =
    IsWellFormed_of_one ws m (write ws d m) before
      (rw (at_ws-here ws (GoMap.put d.id d (m.by_ws ws)) m.by_ws) (
        write-IsConsistent ws (m.by_ws ws) (m.tombstoned ws) (m.tombstoned ws) d (before ws) here
          has_id (λ j _. refl) (λ h. absurd (ground arith)) (λ j e _. free j e) alone))
      (λ w h. (at_ws-there ws w _ m.by_ws h, refl))

-- A row that no map holds has no tombstone.
pub is_live_of_new :
    (m : MemoryStore) (ws id : Text)
    → IsWellFormed m
    → GoMap.get id (m.by_ws ws) ≡ none
    → is_dead m ws id ≡ false
is_live_of_new m ws id before new = elim (Bool-cases (is_dead m ws id)) [
  | inl p ↦ let (e, g, _) = (before ws).buried id p in absurd (ground arith)
  | inr p ↦ p
]

-- `Create` of a row with a new ID that is no table of another module.
pub create-IsWellFormed :
    (m : MemoryStore) (d : Dataset)
    → IsWellFormed m
    → GoMap.get d.id (m.by_ws d.workspace) ≡ none
    → d.id ≢ []
    → is_iceberg d.format ≡ false
    → IsWellFormed (create m d).1
unfolding create
create-IsWellFormed m d before new has_id fmt =
    elim (Bool-cases (name_taken m d.workspace d.name [])) [
      | inl p ↦ rw p before
      | inr p ↦ rw p (
          write-IsWellFormed m d.workspace d before refl has_id
            (is_live_of_new m d.workspace d.id before new)
            (λ j e h v.
              name_taken_complete m d.workspace d.name [] j e p
                (ground (arith, (before d.workspace).no_empty_id)) v)
            (λ j e sm uuid h. ground arith))
    ]

-- `Update`, to a format other than a table of another module.
pub update-IsWellFormed :
    (m : MemoryStore) (d : Dataset)
    → IsWellFormed m
    → is_iceberg d.format ≡ false
    → IsWellFormed (update m d).1
unfolding update
update-IsWellFormed m d before fmt = elim (Option-cases (lookup m d.workspace d.id)) [
  | inl p ↦ rw p before
  | inr (cur, p) ↦ elim (Bool-cases (name_taken m d.workspace d.name d.id)) [
    | inl q ↦ rw (p, q) before
    | inr q ↦
        let (live, row) = lookup-eq-some m d.workspace d.id cur p in
        let (same, here) = (before d.workspace).keyed d.id cur row in
        rw (p, q)
          (write-IsWellFormed m d.workspace (updated cur d) before here
            (ground (arith, (before d.workspace).no_empty_id)) (ground arith)
            (λ j e h v. name_taken_complete m d.workspace d.name d.id j e q (ground arith) v)
            (λ j e sm uuid h. ground arith))
  ]
]

-- A row that is taken away without a tombstone.
delete-IsConsistent :
    (ws id : Text) (rows : GoMap Text Dataset) (dead : GoMap Text Bool)
    → IsConsistent ws rows dead
    → flag id dead ≡ false
    → IsConsistent ws (GoMap.delete id rows) dead
delete-IsConsistent ws id rows dead before live = record {
  distinct = HasDistinctKeys-delete id rows before.distinct;
  keyed = λ i d h. ground (arith, get-delete id i rows, before.keyed i d);
  named = λ i j d d' h k n.
      ground (arith, get-delete id i rows, get-delete id j rows, before.named i j d d');
  buried = λ i h.
      let (d, g, f) = before.buried i h in
      (d, ground (arith, get-delete id i rows, eq_iff id i), f);
  identified = λ i j d d' sm uuid h k t t'.
      ground
        (arith, get-delete id i rows, get-delete id j rows, before.identified i j d d' sm uuid);
  no_empty_id = ground (arith, get-delete id [] rows, before.no_empty_id);
}

pub delete-IsWellFormed :
    (m : MemoryStore) (ws id : Text) → IsWellFormed m → IsWellFormed (delete m ws id).1
unfolding delete
delete-IsWellFormed m ws id before = elim (Option-cases (lookup m ws id)) [
  | inl p ↦ rw p before
  | inr (cur, p) ↦ rw p (
      IsWellFormed_of_one ws m
        (record m { by_ws = at_ws ws (GoMap.delete id (m.by_ws ws)) m.by_ws }) before
        (rw (at_ws-here ws (GoMap.delete id (m.by_ws ws)) m.by_ws) (
          delete-IsConsistent ws id (m.by_ws ws) (m.tombstoned ws) (before ws)
            (lookup-eq-some m ws id cur p).0))
        (λ w h. (at_ws-there ws w _ m.by_ws h, refl)))
]
