-- ===== src/Code/Store/Reach.antt =====
-- The stores that a run of the program goes through (internal/code/memory.go), and what holds of
-- the versions of every entry in them.
use booth_catalog.Prelude.{
  ℕ, false, ◌||◌, List, [], ◌∷◌, ◌++◌, suc, ◌+◌, ◌==◌, eq_iff, nat_eq, list_eq, some, any, length,
  ◌≡◌, ◌≢◌, refl, subst, arith, Bool-cases, Option-cases, inl, inr,
}
use booth_catalog.Prelude.GoMap
use booth_catalog.Prelude.GoMap.Laws.{get-put, get-delete}
use booth_catalog.Text.{Text, byte_len}
use booth_catalog.Data.Store.{at_ws}
use booth_catalog.Code.Model.{Version, Entry}
use booth_catalog.Code.Store.{
  Item, MemoryStore, new_store, numbered, write, find, has_label, published, described, undescribed,
  add_version, create, update, delete, name_taken,
}

-- Versions that are numbered from `n` on, that have their true size, and of which no two have one label.
abbrev pub IsHistory : ℕ → List Version → Type 0
IsHistory n [] = Unit
IsHistory n (v ∷ vs) =
    (v.summary.seq_no ≡ n)
    × (v.summary.size_bytes ≡ byte_len v.source)
    × (any (has_label v.summary.version) vs ≡ false)
    × IsHistory (suc n) vs

any_label-append :
    (label : Text) (vs : List Version) (v : Version)
    → any (has_label label) (vs ++ v ∷ []) ≡ (any (has_label label) vs || has_label label v)
any_label-append label [] v = ground arith
any_label-append label (w ∷ vs) v = ground (arith, any_label-append label vs v)

IsHistory-append :
    (n k : ℕ) (vs : List Version) (v : Version)
    → k ≡ length vs + n
    → IsHistory n vs
    → any (has_label v.summary.version) vs ≡ false
    → IsHistory n (vs ++ numbered k v ∷ [])
IsHistory-append n k [] v e h free = (ground arith, refl, refl, tt)
IsHistory-append n k (w ∷ vs) v e h free = (
  h.0,
  h.1,
  ground (
    arith,
    any_label-append w.summary.version vs (numbered k v),
    eq_iff w.summary.version v.summary.version,
    eq_iff v.summary.version w.summary.version,
  ),
  IsHistory-append (suc n) k vs v (omega (arith, e)) h.3 (ground arith),
)

-- Every entry has a version, and its versions are a history from 1.
abbrev pub IsSound : MemoryStore → Type 0
IsSound m =
    (ws id : Text) (r : Item) → find m ws id ≡ some r → (r.versions ≢ []) × IsHistory 1 r.versions

write-IsSound :
    (m : MemoryStore) (ws id : Text) (r : Item)
    → IsSound m
    → (r.versions ≢ []) × IsHistory 1 r.versions
    → IsSound (write ws id r m)
unfolding find
write-IsSound m ws id r before here w j s h = elim (Bool-cases (ws == w)) [
  | inr p ↦ before w j s (ground arith)
  | inl p ↦ elim (Bool-cases (id == j)) [
    | inr q ↦ before w j s (ground (arith, eq_iff ws w, get-put id j r (m ws)))
    | inl q ↦
        let e : r ≡ s = ground (arith, get-put id j r (m ws)) in
        subst (λ x. (x.versions ≢ []) × IsHistory 1 x.versions) e here
  ]
]

dropped-IsSound :
    (m : MemoryStore) (ws id : Text) → IsSound m → IsSound (at_ws ws (GoMap.delete id (m ws)) m)
unfolding find
dropped-IsSound m ws id before w j s h = elim (Bool-cases (ws == w)) [
  | inr p ↦ before w j s (ground arith)
  | inl p ↦ before w j s (ground (arith, eq_iff ws w, get-delete id j (m ws)))
]

append_ne : (vs : List Version) (v : Version) → (vs ++ v ∷ []) ≢ []
append_ne [] v h = absurd (ground arith)
append_ne (w ∷ vs) v h = absurd (ground arith)

-- One call of a method that writes.
pub data Step : MemoryStore → MemoryStore → Type 0 where
  creates : {m : MemoryStore} (e : Entry) (first : Version) → Step m (create m e first).1
  updates : {m : MemoryStore} (e : Entry) → Step m (update m e).1
  deletes : {m : MemoryStore} (ws id : Text) → Step m (delete m ws id).1
  adds : {m : MemoryStore} (ws id : Text) (v : Version) → Step m (add_version m ws id v).1

pub data Reachable : MemoryStore → Type 0 where
  start : Reachable new_store
  step : {m m' : MemoryStore} → Reachable m → Step m m' → Reachable m'

create-IsSound : (m : MemoryStore) (e : Entry) (v : Version) → IsSound m → IsSound (create m e v).1
unfolding create
create-IsSound m e v before = elim (Bool-cases (name_taken m e.workspace e.name [])) [
  | inl p ↦ rw p before
  | inr p ↦ rw p (
      write-IsSound m e.workspace e.id
        (record { entry = undescribed e; versions = numbered 1 v ∷ [] }) before
        ((λ h. ground arith), (refl, refl, refl, tt)))
]

update-IsSound : (m : MemoryStore) (e : Entry) → IsSound m → IsSound (update m e).1
unfolding update
update-IsSound m e before = elim (Option-cases (find m e.workspace e.id)) [
  | inl p ↦ rw p before
  | inr (r, p) ↦ elim (Bool-cases (name_taken m e.workspace e.name e.id)) [
    | inl q ↦ rw (p, q) before
    | inr q ↦
        rw (p, q)
          (write-IsSound m e.workspace e.id (record r { entry = described r.entry e }) before
            (before e.workspace e.id r p))
  ]
]

delete-IsSound : (m : MemoryStore) (ws id : Text) → IsSound m → IsSound (delete m ws id).1
unfolding delete
delete-IsSound m ws id before = elim (Option-cases (find m ws id)) [
  | inl p ↦ rw p before
  | inr (r, p) ↦ rw p (dropped-IsSound m ws id before)
]

add_version-IsSound :
    (m : MemoryStore) (ws id : Text) (v : Version) → IsSound m → IsSound (add_version m ws id v).1
unfolding add_version
add_version-IsSound m ws id v before = elim (Option-cases (find m ws id)) [
  | inl p ↦ rw p before
  | inr (r, p) ↦ elim (Bool-cases (any (has_label v.summary.version) r.versions)) [
    | inl q ↦ rw (p, q) before
    | inr q ↦
        rw (p, q)
          (write-IsSound m ws id (published r v) before (
            append_ne r.versions (numbered (suc (length r.versions)) v),
            IsHistory-append 1 (suc (length r.versions)) r.versions v (ground arith)
                (before ws id r p).1 q,
          ))
  ]
]

Step-IsSound : (m m' : MemoryStore) → IsSound m → Step m m' → IsSound m'
Step-IsSound m _ before (creates e v) = create-IsSound m e v before
Step-IsSound m _ before (updates e) = update-IsSound m e before
Step-IsSound m _ before (deletes ws id) = delete-IsSound m ws id before
Step-IsSound m _ before (adds ws id v) = add_version-IsSound m ws id v before

new_store-IsSound : IsSound new_store
unfolding find GoMap.get
new_store-IsSound ws id r h = absurd (ground arith)

-- In every store that calls of Create, Update, Delete and AddVersion lead to from an empty one, every
-- entry has a version; its versions are numbered 1, 2, 3 and so on in the order of publication; each
-- has the size of its source; and no two have one label.
pub Reachable-IsSound : (m : MemoryStore) → Reachable m → IsSound m
Reachable-IsSound _ start = new_store-IsSound
Reachable-IsSound m' (step {m} r s) = Step-IsSound m m' (Reachable-IsSound m r) s
