-- ===== src/Data/Service/Writes.antt =====
-- What Create and Update store (internal/data/service.go).
use booth_catalog.Prelude.{
  false, not, [], eq_refl, nat_eq, list_eq, ◌≡◌, refl, sym, subst, ◌∙◌, arith, Bool-cases,
  Option-cases, inl, inr,
}
use booth_catalog.Prelude.GoMap
use booth_catalog.Prelude.GoMap.Laws.{get-put}
use booth_catalog.Text.{Text, txt, Casing}
use booth_catalog.Asset.Actor.{Actor}
use booth_catalog.Asset.Error.{Result, ok, err, refuse_if, with_value, Result-cases, bind-eq-ok}
use booth_catalog.Asset.Validation.{valid_workspace}
use booth_catalog.Data.Model.{Time, is_iceberg, Dataset, Input}
use booth_catalog.Data.Input.Laws.{normalize-IsPlaced}
use booth_catalog.Data.Input
use booth_catalog.Data.Store.{
  MemoryStore, write, at_ws, is_dead, lookup, lookup-eq-some, get_of_lookup, get-eq-ok, get,
  name_taken, updated,
}
use booth_catalog.Data.Store
use booth_catalog.Data.Store.Kept.{
  IsWellFormed, create-IsWellFormed, update-IsWellFormed, at_ws-here, is_live_of_new,
}
use booth_catalog.Data.Store.Reach.{IsNew}
use booth_catalog.Data.Service.Rows.{
  IsRegistered, IsEdited, registered-IsRegistered, edited-IsEdited,
}
use booth_catalog.Data.Service.{
  is_managed, create, update, registered, edited, written, save_edited, checked_input,
}

-- A row that was written, with no tombstone of it, is what Get returns.
get-write :
    (m : MemoryStore) (ws : Text) (d : Dataset)
    → is_dead m ws d.id ≡ false
    → get (write ws d m) ws d.id ≡ ok d
unfolding get lookup
get-write m ws d live = ground (
  arith,
  at_ws-here ws (GoMap.put d.id d (m.by_ws ws)) m.by_ws,
  get-put d.id d.id d (m.by_ws ws),
  eq_refl d.id,
)

get-create :
    (m : MemoryStore) (d : Dataset)
    → is_dead m d.workspace d.id ≡ false
    → (Store.create m d).0 ≡ ok tt
    → get (Store.create m d).1 d.workspace d.id ≡ ok d
unfolding Store.create
get-create m d live h = elim (Bool-cases (name_taken m d.workspace d.name [])) [
  | inl p ↦ absurd (ground arith)
  | inr p ↦ rw p (get-write m d.workspace d live)
]

get-update :
    (m : MemoryStore) (d : Dataset)
    → IsWellFormed m
    → (Store.update m d).0 ≡ ok tt
    → (cur : Dataset) × (get m d.workspace d.id ≡ ok cur)
      × (get (Store.update m d).1 d.workspace d.id ≡ ok (updated cur d))
unfolding Store.update
get-update m d before h = elim (Option-cases (lookup m d.workspace d.id)) [
  | inl p ↦ absurd (ground arith)
  | inr (cur, p) ↦
      let (live, row) = lookup-eq-some m d.workspace d.id cur p in
      let (same, here) = (before d.workspace).keyed d.id cur row in
      elim (Bool-cases (name_taken m d.workspace d.name d.id)) [
        | inl q ↦ absurd (ground arith)
        | inr q ↦ (
          cur,
          get_of_lookup m d.workspace d.id cur p,
          rw (p, q)
              (subst
                (λ x. get (write d.workspace (updated cur d) m) d.workspace x ≡ ok (updated cur d))
                same (get-write m d.workspace (updated cur d) (rw same live))),
        )
      ]
]

get_keyed :
    (m : MemoryStore) (ws id : Text) (cur : Dataset)
    → IsWellFormed m
    → get m ws id ≡ ok cur
    → (cur.id ≡ id) × (cur.workspace ≡ ws)
get_keyed m ws id cur before h =
    (before ws).keyed id cur (lookup-eq-some m ws id cur (get-eq-ok m ws id cur h)).1

ok-injective : (d d' : Dataset) → ok d ≡ ok d' → d ≡ d'
ok-injective d d' h = ground arith

get_at :
    (m : MemoryStore) (ws id ws' id' : Text) (r : Result Dataset)
    → ws ≡ ws'
    → id ≡ id'
    → get m ws' id' ≡ r
    → get m ws id ≡ r
get_at m ws id ws' id' r h k g = rw (h, k) g

written-ok :
    (d d' : Dataset) (r : Result (Unit {0}) × MemoryStore)
    → (written d r).0 ≡ ok d'
    → (r.0 ≡ ok tt) × (d ≡ d')
written-ok d d' (ok _, m) h = ground arith
written-ok d d' (err e, m) h = absurd (ground arith)

module _ ⦃u : Casing⦄ where
  checked_input-ok :
      (ws : Text) (i i' : Input) → checked_input ws i ≡ ok i' → Input.normalize i ≡ ok i'
  unfolding checked_input
  checked_input-ok ws i i' h =
      (bind-eq-ok (refuse_if (not (valid_workspace ws)) (txt "workspace")) _ h).2

  not_iceberg : (i i' : Input) → Input.normalize i ≡ ok i' → is_iceberg i'.format ≡ false
  not_iceberg i i' h = elim (normalize-IsPlaced i i' h) [
    | inl is ↦ ground (arith, is.format)
    | inr is ↦ ground (arith, is.format)
  ]

  update_result :
      (m : MemoryStore) (ws id : Text) (i : Input) (now : Time) (i' : Input) (cur : Dataset)
      → Input.normalize i ≡ ok i'
      → get m ws id ≡ ok cur
      → is_managed cur ≡ false
      → update m ws id i now ≡ written (edited cur now i') (Store.update m (edited cur now i'))
  unfolding update save_edited
  update_result m ws id i now i' cur p q r = rw (p, q, r) refl

  -- A dataset that Create accepted, under an ID that is new to a well-formed store, is the one that
  -- Get then returns: it has the fields of the normalized input, the workspace asked for, the actor as
  -- its creator and, where no owner is given, as its owner, and the time of the call; a database table is
  -- marked as registered by hand, and what only events fill in is blank.
  pub create-get :
      (m : MemoryStore) (ws id : Text) (actor : Actor) (i : Input) (now : Time) (d : Dataset)
      → IsWellFormed m
      → IsNew m ws id
      → (create m ws actor i id now).0 ≡ ok d
      → (get (create m ws actor i id now).1 ws id ≡ ok d)
        × ((i' : Input) × (Input.normalize i ≡ ok i') × IsRegistered id ws actor now i' d)
  unfolding create
  create-get m ws id actor i now d before new h = elim (Result-cases (checked_input ws i)) [
    | inl (i', p) ↦
        let row = registered id ws actor now i' in
        let g : (written row (Store.create m row)).0 ≡ ok d =
          subst
            (λ x.
              (with_value m x (λ i'.
                written (registered id ws actor now i')
                  (Store.create m (registered id ws actor now i')))).0
              ≡ ok d)
            p h in
        let (done, same) = written-ok row d (Store.create m row) g in
        rw p (
          subst (λ x. get (Store.create m row).1 ws id ≡ ok x) same
              (get-create m row (is_live_of_new m ws id before new.0) done),
          (
            i',
            checked_input-ok ws i i' p,
            subst (IsRegistered id ws actor now i') same
                (registered-IsRegistered id ws actor now i'),
          ),
        )
    | inr (e, p) ↦ absurd (ground arith)
  ]

  -- An accepted Update of a well-formed store was of a row that Get returned and that is not managed
  -- by another module. Its answer has the fields of the normalized input, the row's own owner where
  -- none is given and the time of the call, and is that row in all else, but that a database table is
  -- marked as registered by hand and nothing else is. What Get returns afterwards is that answer but for
  -- `Source`, which is the one of the row before.
  pub update_stores :
      (m : MemoryStore) (ws id : Text) (i : Input) (now : Time) (d : Dataset)
      → IsWellFormed m
      → (update m ws id i now).0 ≡ ok d
      → (cur : Dataset) × (get m ws id ≡ ok cur)
        × (is_managed cur ≡ false)
        × ((i' : Input) × (Input.normalize i ≡ ok i') × IsEdited cur now i' d)
        × (get (update m ws id i now).1 ws id ≡ ok (record d { source = cur.source }))
  unfolding update save_edited
  update_stores m ws id i now d before h = elim (Result-cases (Input.normalize i)) [
    | inr (e, p) ↦ absurd (ground arith)
    | inl (i', p) ↦ elim (Result-cases (get m ws id)) [
      | inr (e, q) ↦ absurd (ground arith)
      | inl (cur, q) ↦ elim (Bool-cases (is_managed cur)) [
        | inl r ↦ absurd (ground arith)
        | inr r ↦
            let row = edited cur now i' in
            let eq = update_result m ws id i now i' cur p q r in
            let (done, same) =
              written-ok row d (Store.update m row) (subst (λ x. x.0 ≡ ok d) eq h) in
            let (this, here) = get_keyed m ws id cur before q in
            let (cur', old, stored) = get-update m row before done in
            let e : cur ≡ cur' =
              ok-injective cur cur'
                (sym q ∙ get_at m ws id cur.workspace cur.id _ (sym here) (sym this) old) in
            (
              cur,
              q,
              r,
              (i', p, subst (IsEdited cur now i') same (edited-IsEdited cur now i')),
              subst (λ x. get x.1 ws id ≡ ok (record d { source = cur.source })) (sym eq)
                  (get_at (Store.update m row).1 ws id cur.workspace cur.id _ (sym here) (sym this)
                    (subst
                      (λ x.
                        get (Store.update m row).1 cur.workspace cur.id
                        ≡ ok (record x { source = cur.source }))
                      same
                      (subst
                        (λ x. get (Store.update m row).1 cur.workspace cur.id ≡ ok (updated x row))
                        (sym e) stored))),
            )
      ]
    ]
  ]

  -- The rows that Create and Update write are no iceberg tables, so that they keep the store well
  -- formed: Create under a new ID, Update under any.
  pub writes-IsWellFormed :
      (m : MemoryStore) (ws id : Text) (actor : Actor) (i : Input) (now : Time)
      → IsWellFormed m
      → (IsNew m ws id → IsWellFormed (create m ws actor i id now).1)
        × IsWellFormed (update m ws id i now).1
  unfolding create update save_edited
  writes-IsWellFormed m ws id actor i now before = (
    (λ new. elim (Result-cases (checked_input ws i)) [
      | inl (i', p) ↦ rw p (
          create-IsWellFormed m (registered id ws actor now i') before new.0 new.1
            (not_iceberg i i' (checked_input-ok ws i i' p)))
      | inr (e, p) ↦ rw p before
    ]),
    elim (Result-cases (Input.normalize i)) [
      | inr (e, p) ↦ rw p before
      | inl (i', p) ↦ elim (Result-cases (get m ws id)) [
        | inr (e, q) ↦ rw (p, q) before
        | inl (cur, q) ↦ elim (Bool-cases (is_managed cur)) [
          | inl r ↦ rw (p, q, r) before
          | inr r ↦
              rw (p, q, r) (update-IsWellFormed m (edited cur now i') before (not_iceberg i i' p))
        ]
      ]
    ],
  )
