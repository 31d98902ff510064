-- ===== src/Code/Store/Placed.antt =====
-- Every code entry stands under its own ID, in its own workspace (internal/code/memory.go).
use booth_catalog.Prelude.{
  [], ◌∷◌, eq_iff, nat_eq, list_eq, some, any, ◌≡◌, refl, arith, Bool-cases, Option-cases, inl, inr,
}
use booth_catalog.Prelude.GoMap
use booth_catalog.Prelude.GoMap.Laws.{get-put, get-delete}
use booth_catalog.Text.{Text}
use booth_catalog.Code.Model.{Version, Entry}
use booth_catalog.Code.Store.{
  Item, MemoryStore, new_store, find, write, create, update, delete, add_version, name_taken,
  has_label, numbered, undescribed, described, published,
}

abbrev pub IsPlaced : MemoryStore → Type 0
IsPlaced m =
    (ws id : Text) (r : Item) → find m ws id ≡ some r → (r.entry.workspace ≡ ws) × (r.entry.id ≡ id)

write-IsPlaced :
    (m : MemoryStore) (ws id : Text) (r : Item)
    → IsPlaced m
    → (r.entry.workspace ≡ ws) × (r.entry.id ≡ id)
    → IsPlaced (write ws id r m)
unfolding find
write-IsPlaced m ws id r before here w j x h =
    ground (arith, eq_iff ws w, eq_iff id j, get-put id j r (m ws), before w j x)

pub create-IsPlaced :
    (m : MemoryStore) (e : Entry) (v : Version) → IsPlaced m → IsPlaced (create m e v).1
unfolding create
create-IsPlaced m e v before = elim (Bool-cases (name_taken m e.workspace e.name [])) [
  | inl p ↦ rw p before
  | inr p ↦ rw p (
      write-IsPlaced m e.workspace e.id
        (record { entry = undescribed e; versions = numbered 1 v ∷ [] }) before (refl, refl))
]

pub update-IsPlaced : (m : MemoryStore) (e : Entry) → IsPlaced m → IsPlaced (update m e).1
unfolding update
update-IsPlaced m e before = elim (Option-cases (find m e.workspace e.id)) [
  | inl p ↦ rw p before
  | inr (r, p) ↦ elim (Bool-cases (name_taken m e.workspace e.name e.id)) [
    | inl q ↦ rw (p, q) before
    | inr q ↦
        rw (p, q)
          (write-IsPlaced m e.workspace e.id (record r { entry = described r.entry e }) before
            (before e.workspace e.id r p))
  ]
]

pub add_version-IsPlaced :
    (m : MemoryStore) (ws id : Text) (v : Version) → IsPlaced m → IsPlaced (add_version m ws id v).1
unfolding add_version
add_version-IsPlaced m ws id v before = elim (Option-cases (find m ws id)) [
  | inl p ↦ rw p before
  | inr (r, p) ↦ elim (Bool-cases (any (has_label v.summary.version) r.versions)) [
    | inl q ↦ rw (p, q) before
    | inr q ↦ rw (p, q) (write-IsPlaced m ws id (published r v) before (before ws id r p))
  ]
]

pub delete-IsPlaced : (m : MemoryStore) (ws id : Text) → IsPlaced m → IsPlaced (delete m ws id).1
unfolding delete find
delete-IsPlaced m ws id before = elim (Option-cases (find m ws id)) [
  | inl p ↦ rw p before
  | inr (r, p) ↦
      rw p
        (λ w j x h. ground (arith, eq_iff ws w, eq_iff id j, get-delete id j (m ws), before w j x))
]

pub new_store-IsPlaced : IsPlaced new_store
unfolding find GoMap.get
new_store-IsPlaced ws id r h = absurd (ground arith)
