-- ===== src/Code/Service/Errors.antt =====
-- A method of the code catalog that fails changes nothing (internal/code/service.go over
-- internal/code/memory.go).
use booth_catalog.Prelude.{
  ◌==◌, eq_iff, ap, ◌∙◌, ℕ, [], nat_eq, list_eq, some, ◌≡◌, refl, arith, Bool-cases, Option-cases,
  inl, inr, ◌∷◌,
}
use booth_catalog.Prelude.GoMap
use booth_catalog.Prelude.GoMap.Laws.{get-put}
use booth_catalog.Text.{Text, Casing}
use booth_catalog.Asset.Actor.{Actor}
use booth_catalog.Asset.Error.{Error, Result, ok, err, with_value, with_value-keeps}
use booth_catalog.Data.Model.{Time}
use booth_catalog.Code.Model.{normalize_entry, Entry, Version, EntryInput, VersionInput}
use booth_catalog.Code.Store.{
  Item, MemoryStore, find, name_taken, has_label, view, write, undescribed, numbered, described,
}
use booth_catalog.Code.Store
use booth_catalog.Code.Store.Laws.{find-write}
use booth_catalog.Code.Service.{create, update, publish, read_back, new_entry, edited, unnumbered}

-- The result is an error only where the store is as it was.
abbrev pub Keeps : {A : Type 0} → MemoryStore → Result A × MemoryStore → Type 0
Keeps m r = (e : Error) → r.0 ≡ err e → r.1 ≡ m

pub delete-Keeps : (m : MemoryStore) (ws id : Text) → Keeps m (Store.delete m ws id)
unfolding Store.delete
delete-Keeps m ws id e h = ground arith

add_version-Keeps :
    (m : MemoryStore) (ws id : Text) (v : Version) → Keeps m (Store.add_version m ws id v)
unfolding Store.add_version
add_version-Keeps m ws id v e h = ground arith

create_row-Keeps :
    (m : MemoryStore) (e : Entry) (v : Version)
    → Keeps m (read_back e.workspace e.id (Store.create m e v))
unfolding Store.create Store.get
create_row-Keeps m e v x h = ground (
  arith,
  find-write m e.workspace e.id (record { entry = undescribed e; versions = numbered 1 v ∷ [] }),
)

-- A write loses no entry.
find-write-some :
    (m : MemoryStore) (ws id w j : Text) (r r' : Item)
    → find m ws id ≡ some r
    → (x : Item) × (find (write w j r' m) ws id ≡ some x)
unfolding find
find-write-some m ws id w j r r' h = elim (Bool-cases (w == ws)) [
  | inl p ↦
      let e : w ≡ ws = (eq_iff w ws).0 p in
      elim (Bool-cases (j == id)) [
        | inl q ↦ (r', ground (arith, get-put j id r' (m w)))
        | inr q ↦ (r, rw p (get-put j id r' (m w) ∙ rw q (ap (λ x. GoMap.get id (m x)) e ∙ h)))
      ]
  | inr p ↦ (r, rw p h)
]

-- An edit of an entry that is read back under the ID that it was found by.
update_row-Keeps :
    (m : MemoryStore) (ws id : Text) (r : Item) (e : Entry)
    → find m ws id ≡ some r
    → Keeps m (read_back ws id (Store.update m e))
unfolding Store.update Store.get
update_row-Keeps m ws id r e there x h = elim (Option-cases (find m e.workspace e.id)) [
  | inl p ↦ ground arith
  | inr (r', p) ↦
      let (y, found) =
        find-write-some m ws id e.workspace e.id r (record r' { entry = described r'.entry e })
          there in
      ground arith
]

get-find :
    (m : MemoryStore) (ws id : Text) (cur : Entry)
    → Store.get m ws id ≡ ok cur
    → (r : Item) × (find m ws id ≡ some r)
unfolding Store.get
get-find m ws id cur h = elim (Option-cases (find m ws id)) [
  | inl p ↦ absurd (ground arith)
  | inr (r, p) ↦ (r, p)
]

pub publish-Keeps :
    (max_source : ℕ) (m : MemoryStore) (ws id : Text) (actor : Actor) (v : VersionInput)
    (now : Time)
    → Keeps m (publish max_source m ws actor id v now)
unfolding publish
publish-Keeps max_source m ws id actor v now =
    with_value-keeps m _ _ (λ v'. add_version-Keeps m ws id (unnumbered v' actor.display_name now))

module _ ⦃u : Casing⦄ where
  pub update-Keeps :
      (m : MemoryStore) (ws id : Text) (i : EntryInput) (now : Time)
      → Keeps m (update m ws id i now)
  unfolding update
  update-Keeps m ws id i now =
      with_value-keeps m (normalize_entry i) _ (λ i'. keeps_edit i' (Store.get m ws id) refl)
    where
      keeps_edit :
          (i' : EntryInput) (r : Result Entry)
          → Store.get m ws id ≡ r
          → Keeps m (with_value m r (λ cur. read_back ws id (Store.update m (edited cur now i'))))
      keeps_edit i' (err e) h = λ x p. refl
      keeps_edit i' (ok cur) h =
          let (r, there) = get-find m ws id cur h in
          update_row-Keeps m ws id r (edited cur now i') there

  -- A call of Create, Update, Publish or Delete of the code catalog that returns an error leaves the
  -- store as it was.
  pub writes-Keep :
      (max_source : ℕ) (m : MemoryStore) (ws id : Text) (actor : Actor) (i : EntryInput)
      (v : VersionInput) (now : Time)
      → Keeps m (create max_source m ws actor i v id now)
        × Keeps m (update m ws id i now)
        × Keeps m (publish max_source m ws actor id v now)
        × Keeps m (Store.delete m ws id)
  unfolding create
  writes-Keep max_source m ws id actor i v now = (
    with_value-keeps m _ _ (λ (e, v').
        create_row-Keeps m (new_entry id ws actor now e) (unnumbered v' actor.display_name now)),
    update-Keeps m ws id i now,
    publish-Keeps max_source m ws id actor v now,
    delete-Keeps m ws id,
  )
