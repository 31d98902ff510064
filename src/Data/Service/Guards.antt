-- ===== src/Data/Service/Guards.antt =====
-- What the service refuses and what it lets through (internal/data/service.go).
use booth_catalog.Prelude.{
  Bool, true, false, nat_eq, list_eq, ◌≡◌, ◌↔◌, refl, sym, subst, arith, Option-cases, inl, inr,
}
use booth_catalog.Text.{Text}
use booth_catalog.Asset.Error.{ok, Result-cases}
use booth_catalog.Data.Model.{is_iceberg, is_auto, Dataset}
use booth_catalog.Data.Store.{MemoryStore, at_ws, is_dead, lookup, lookup-eq-some, get, name_taken}
use booth_catalog.Data.Store
use booth_catalog.Data.Service.{deletion_error, delete}

-- Who may delete a row: it is no table of another module, and, if it was discovered, its table is
-- gone and the caller owns the workspace.
abbrev pub IsDeletable : Dataset → Bool → Type 0
IsDeletable cur is_owner =
    (is_iceberg cur.format ≡ false)
    × (is_auto cur.source ≡ true → (cur.missing ≡ true) × (is_owner ≡ true))

deletion_error_iff :
    (cur : Dataset) (is_owner : Bool)
    → (deletion_error cur is_owner ≡ ok tt) ↔ IsDeletable cur is_owner
unfolding deletion_error
deletion_error_iff cur is_owner = ground arith

store_delete_ok :
    (m : MemoryStore) (ws id : Text) (cur : Dataset)
    → get m ws id ≡ ok cur
    → (Store.delete m ws id).0 ≡ ok tt
unfolding get Store.delete
store_delete_ok m ws id cur h = elim (Option-cases (lookup m ws id)) [
  | inl p ↦ absurd (ground arith)
  | inr (d, p) ↦ rw p refl
]

-- Delete succeeds exactly on a row that Get returns and that may be deleted: one that is no iceberg
-- table and that, if it was auto-discovered, is missing and is deleted by an owner.
pub delete_iff :
    (m : MemoryStore) (ws id : Text) (is_owner : Bool)
    → ((delete m ws id is_owner).0 ≡ ok tt)
      ↔ ((cur : Dataset) × (get m ws id ≡ ok cur) × IsDeletable cur is_owner)
unfolding delete
delete_iff m ws id is_owner = elim (Result-cases (get m ws id)) [
  | inl (cur, p) ↦ elim (Result-cases (deletion_error cur is_owner)) [
    | inl (_, q) ↦
        rw (p, q)
          (
            (λ h. (cur, refl, (deletion_error_iff cur is_owner).0 q)),
            (λ h. store_delete_ok m ws id cur p),
          )
    | inr (e, q) ↦
        rw (p, q)
          (
            (λ h. absurd (ground arith)),
            (λ h.
                let (cur', same, is) = h in
                let e' : cur ≡ cur' = ground arith in
                absurd (
                  ground (
                    arith,
                    (deletion_error_iff cur is_owner).1
                        (subst (λ x. IsDeletable x is_owner) (sym e') is),
                  ))),
          )
  ]
  | inr (e, p) ↦ rw p ((λ h. absurd (ground arith)), (λ h. absurd (ground arith)))
]
