-- ===== src/Data/Store/Invariant.antt =====
-- What holds of the rows of a workspace, and a rule for writing one row.
use booth_catalog.Prelude.{
  Bool, true, false, [], ◌==◌, eq_iff, nat_eq, list_eq, if◌then◌else◌, Option, none, some, ◌≡◌, ◌≢◌,
  arith, Bool-cases, inl, inr,
}
use booth_catalog.Prelude.GoMap
use booth_catalog.Prelude.GoMap.{GoMap}
use booth_catalog.Prelude.GoMap.Laws.{HasDistinctKeys, get-put, HasDistinctKeys-put}
use booth_catalog.Text.{Text}
use booth_catalog.Data.Model.{Dataset, iceberg}
use booth_catalog.Data.Store.{flag, is_table}

-- The row of a workspace that reads see under an ID.
abbrev pub visible : GoMap Text Dataset → GoMap Text Bool → Text → Option Dataset
visible rows dead id = if flag id dead then none else GoMap.get id rows

pub record IsConsistent (ws : Text) (rows : GoMap Text Dataset) (dead : GoMap Text Bool)
    : Type 0 where
  pub distinct : HasDistinctKeys rows
  -- a row stands under its own ID, in its own workspace
  pub keyed :
      (id : Text) (d : Dataset) → GoMap.get id rows ≡ some d → (d.id ≡ id) × (d.workspace ≡ ws)
  -- no two visible rows have one name
  pub named :
      (i j : Text) (d d' : Dataset)
      → visible rows dead i ≡ some d
      → visible rows dead j ≡ some d'
      → d.name ≡ d'.name
      → i ≡ j
  -- a tombstone has a row, and only tables of another module have tombstones
  pub buried :
      (id : Text)
      → flag id dead ≡ true
      → (d : Dataset) × (GoMap.get id rows ≡ some d) × (d.format ≡ iceberg)
  -- a table of another module has one row, visible or not
  pub identified :
      (i j : Text) (d d' : Dataset) (source_module uuid : Text)
      → GoMap.get i rows ≡ some d
      → GoMap.get j rows ≡ some d'
      → is_table source_module uuid d ≡ true
      → is_table source_module uuid d' ≡ true
      → i ≡ j
  pub no_empty_id : GoMap.get [] rows ≡ none

-- Writing the row `d`, visible or not, where the others stay as they were.
module _ (ws : Text) (rows : GoMap Text Dataset) (dead dead' : GoMap Text Bool) (d : Dataset)
    (before : IsConsistent ws rows dead) (here : d.workspace ≡ ws) (has_id : d.id ≢ [])
    (others : (j : Text) → d.id ≢ j → flag j dead' ≡ flag j dead)
    (tomb : flag d.id dead' ≡ true → d.format ≡ iceberg)
    (free : (j : Text) (e : Dataset)
      → flag d.id dead' ≡ false
      → d.id ≢ j
      → visible rows dead j ≡ some e
      → e.name ≢ d.name)
    (alone : (j : Text) (e : Dataset) (source_module uuid : Text)
      → is_table source_module uuid d ≡ true
      → GoMap.get j rows ≡ some e
      → is_table source_module uuid e ≡ true
      → d.id ≡ j) where
  get-write :
      (j : Text)
      → GoMap.get j (GoMap.put d.id d rows) ≡ (if d.id == j then some d else GoMap.get j rows)
  get-write j = get-put d.id j d rows

  keyed-write :
      (id : Text) (e : Dataset)
      → GoMap.get id (GoMap.put d.id d rows) ≡ some e
      → (e.id ≡ id) × (e.workspace ≡ ws)
  keyed-write id e h = ground (arith, get-write id, eq_iff d.id id, before.keyed id e)

  named-write :
      (i j : Text) (e e' : Dataset)
      → visible (GoMap.put d.id d rows) dead' i ≡ some e
      → visible (GoMap.put d.id d rows) dead' j ≡ some e'
      → e.name ≡ e'.name
      → i ≡ j
  named-write i j e e' h k n = ground (
    arith,
    get-write i,
    get-write j,
    eq_iff d.id i,
    eq_iff d.id j,
    others i,
    others j,
    free i e,
    free j e',
    before.named i j e e',
  )

  buried-write :
      (id : Text)
      → flag id dead' ≡ true
      → (e : Dataset) × (GoMap.get id (GoMap.put d.id d rows) ≡ some e) × (e.format ≡ iceberg)
  buried-write id h = elim (Bool-cases (d.id == id)) [
    | inl p ↦ (d, ground (arith, get-write id), ground (arith, eq_iff d.id id))
    | inr p ↦
        let (e, g, f) = before.buried id (ground (arith, others id, eq_iff d.id id)) in
        (e, ground (arith, get-write id), f)
  ]

  identified-write :
      (i j : Text) (e e' : Dataset) (source_module uuid : Text)
      → GoMap.get i (GoMap.put d.id d rows) ≡ some e
      → GoMap.get j (GoMap.put d.id d rows) ≡ some e'
      → is_table source_module uuid e ≡ true
      → is_table source_module uuid e' ≡ true
      → i ≡ j
  identified-write i j e e' sm uuid h k t t' = ground (
    arith,
    get-write i,
    get-write j,
    eq_iff d.id i,
    eq_iff d.id j,
    alone i e sm uuid,
    alone j e' sm uuid,
    before.identified i j e e' sm uuid,
  )

  pub write-IsConsistent : IsConsistent ws (GoMap.put d.id d rows) dead'
  write-IsConsistent = record {
    distinct = HasDistinctKeys-put d.id d rows before.distinct;
    keyed = keyed-write;
    named = named-write;
    buried = buried-write;
    identified = identified-write;
    no_empty_id = ground (arith, get-write [], before.no_empty_id, eq_iff d.id [], has_id);
  }
