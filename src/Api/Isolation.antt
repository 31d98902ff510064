-- ===== src/Api/Isolation.antt =====
-- A request touches no workspace but its own (internal/api/server.go over the services and the
-- in-memory stores).
pub mod Served
use booth_catalog.Prelude.{
  ℕ, Bool, true, false, [], ◌==◌, eq_iff, nat_eq, list_eq, if◌then◌else◌, case_option, none, some,
  ◌≡◌, ◌≢◌, refl, sym, ap, subst, arith, Bool-cases, Option-cases, inl, inr,
}
use booth_catalog.Text.{Text, Casing}
use booth_catalog.Asset.Actor.{Actor}
use booth_catalog.Asset.Error.{Error, Result, ok, err, with_value, Result-cases}
use booth_catalog.Data.Model.{Time, Dataset, Input}
use booth_catalog.Data.Input.{normalize}
use booth_catalog.Data.Store.{lookup, lookup-eq-some, name_taken}
use booth_catalog.Data.Store as DataStore
use booth_catalog.Data.Store.Placed as DataPlaced
use booth_catalog.Data.Service as DataService
use booth_catalog.Code.Model.{
  normalize_entry, normalize_version, Entry, Version, EntryInput, VersionInput,
}
use booth_catalog.Code.Store as CodeStore
use booth_catalog.Code.Store.Placed.{IsPlaced}
use booth_catalog.Code.Service as CodeService

-- What a method leaves, in the workspaces that are not this one.
pub record IsElsewhere {A : Type 0} (ws : Text) (m : DataStore.MemoryStore)
    (r : A × DataStore.MemoryStore) : Type 0 where
  pub there : (w : Text) → ws ≢ w → (r.1.by_ws w ≡ m.by_ws w) × (r.1.tombstoned w ≡ m.tombstoned w)

pub record IsCodeElsewhere {A : Type 0} (ws : Text) (m : CodeStore.MemoryStore)
    (r : A × CodeStore.MemoryStore) : Type 0 where
  pub there : (w : Text) → ws ≢ w → r.1 w ≡ m w

-- What holds where a method fails early and where its rest is called holds of the method.
with_value-either {ℓ} :
    {A B S : Type 0} (P : Result B × S → Type ℓ) (s : S) (r : Result A) (f : A → Result B × S)
    → ((e : Error) → P (err e, s))
    → ((a : A) → r ≡ ok a → P (f a))
    → P (with_value s r f)
with_value-either P s (ok a) f h k = k a refl
with_value-either P s (err e) f h k = h e

create-IsElsewhere :
    (m : DataStore.MemoryStore) (d : Dataset) → IsElsewhere d.workspace m (DataStore.create m d)
unfolding DataStore.create
create-IsElsewhere m d = record { there = λ w h. ground (arith, eq_iff d.workspace w) }

update-IsElsewhere :
    (m : DataStore.MemoryStore) (d : Dataset) → IsElsewhere d.workspace m (DataStore.update m d)
unfolding DataStore.update
update-IsElsewhere m d = record { there = λ w h. ground (arith, eq_iff d.workspace w) }

delete-IsElsewhere :
    (m : DataStore.MemoryStore) (ws id : Text) → IsElsewhere ws m (DataStore.delete m ws id)
unfolding DataStore.delete
delete-IsElsewhere m ws id = record { there = λ w h. ground (arith, eq_iff ws w) }

get_workspace :
    (m : DataStore.MemoryStore) (ws id : Text) (cur : Dataset)
    → DataPlaced.IsPlaced m
    → DataStore.get m ws id ≡ ok cur
    → cur.workspace ≡ ws
unfolding DataStore.get lookup
get_workspace m ws id cur before h = ground (arith, before ws id cur)

code_create-IsElsewhere :
    (m : CodeStore.MemoryStore) (e : Entry) (v : Version)
    → IsCodeElsewhere e.workspace m (CodeStore.create m e v)
unfolding CodeStore.create
code_create-IsElsewhere m e v = record { there = λ w h. ground (arith, eq_iff e.workspace w) }

code_update-IsElsewhere :
    (m : CodeStore.MemoryStore) (e : Entry) → IsCodeElsewhere e.workspace m (CodeStore.update m e)
unfolding CodeStore.update
code_update-IsElsewhere m e = record { there = λ w h. ground (arith, eq_iff e.workspace w) }

pub code_delete-IsElsewhere :
    (m : CodeStore.MemoryStore) (ws id : Text) → IsCodeElsewhere ws m (CodeStore.delete m ws id)
unfolding CodeStore.delete
code_delete-IsElsewhere m ws id = record { there = λ w h. ground (arith, eq_iff ws w) }

add_version-IsElsewhere :
    (m : CodeStore.MemoryStore) (ws id : Text) (v : Version)
    → IsCodeElsewhere ws m (CodeStore.add_version m ws id v)
unfolding CodeStore.add_version
add_version-IsElsewhere m ws id v = record { there = λ w h. ground (arith, eq_iff ws w) }

code_get_workspace :
    (m : CodeStore.MemoryStore) (ws id : Text) (cur : Entry)
    → IsPlaced m
    → CodeStore.get m ws id ≡ ok cur
    → cur.workspace ≡ ws
unfolding CodeStore.get
code_get_workspace m ws id cur before h = elim (Option-cases (CodeStore.find m ws id)) [
  | inl p ↦ absurd (ground arith)
  | inr (r, p) ↦
      let (q, _) = before ws id r p in let e : CodeStore.view r ≡ cur = ground arith in ground arith
]

module _ (m : DataStore.MemoryStore) (ws id : Text) where
  pub service_delete-IsElsewhere :
      (is_owner : Bool) → IsElsewhere ws m (DataService.delete m ws id is_owner)
  unfolding DataService.delete
  service_delete-IsElsewhere is_owner =
      with_value-either (IsElsewhere ws m) m (DataStore.get m ws id) _
        (λ e. record { there = λ w h. (refl, refl) })
        (λ cur p.
          with_value-either (IsElsewhere ws m) m (DataService.deletion_error cur is_owner) _
            (λ e. record { there = λ w h. (refl, refl) }) (λ a q. delete-IsElsewhere m ws id))

  module _ ⦃u : Casing⦄ (now : Time) (i : Input) where
    pub service_create-IsElsewhere :
        (actor : Actor) → IsElsewhere ws m (DataService.create m ws actor i id now)
    unfolding DataService.create
    service_create-IsElsewhere actor =
        with_value-either (IsElsewhere ws m) m (DataService.checked_input ws i) _
          (λ e. record { there = λ w h. (refl, refl) })
          (λ i' p. record {
            there = (create-IsElsewhere m (DataService.registered id ws actor now i')).there;
          })

    pub service_update-IsElsewhere :
        DataPlaced.IsPlaced m → IsElsewhere ws m (DataService.update m ws id i now)
    unfolding DataService.update DataService.save_edited
    service_update-IsElsewhere before =
        with_value-either (IsElsewhere ws m) m (normalize i) _
          (λ e. record { there = λ w h. (refl, refl) })
          (λ i' p.
            with_value-either (IsElsewhere ws m) m (DataStore.get m ws id) _
              (λ e. record { there = λ w h. (refl, refl) })
              (λ cur q. elim (Bool-cases (DataService.is_managed cur)) [
                | inl r ↦ rw r (record { there = λ w h. (refl, refl) })
                | inr r ↦ rw r (record {
                  there =
                      (subst
                        (λ x. IsElsewhere x m (DataStore.update m (DataService.edited cur now i')))
                        (get_workspace m ws id cur before q)
                        (update-IsElsewhere m (DataService.edited cur now i'))).there;
                })
              ]))

module _ (m : CodeStore.MemoryStore) (ws id : Text) (now : Time) where
  pub service_publish-IsElsewhere :
      (max_source : ℕ) (actor : Actor) (v : VersionInput)
      → IsCodeElsewhere ws m (CodeService.publish max_source m ws actor id v now)
  unfolding CodeService.publish
  service_publish-IsElsewhere max_source actor v =
      with_value-either (IsCodeElsewhere ws m) m (normalize_version max_source v) _
        (λ e. record { there = λ w h. refl })
        (λ v' p. add_version-IsElsewhere m ws id (CodeService.unnumbered v' actor.display_name now))

  module _ ⦃u : Casing⦄ (i : EntryInput) where
    pub service_code_create-IsElsewhere :
        (max_source : ℕ) (actor : Actor) (v : VersionInput)
        → IsCodeElsewhere ws m (CodeService.create max_source m ws actor i v id now)
    unfolding CodeService.create
    service_code_create-IsElsewhere max_source actor v =
        with_value-either (IsCodeElsewhere ws m) m (CodeService.checked_create max_source ws i v) _
          (λ e. record { there = λ w h. refl })
          (λ (e, v') p. record {
            there =
                (code_create-IsElsewhere m (CodeService.new_entry id ws actor now e)
                  (CodeService.unnumbered v' actor.display_name now)).there;
          })

    pub service_code_update-IsElsewhere :
        IsPlaced m → IsCodeElsewhere ws m (CodeService.update m ws id i now)
    unfolding CodeService.update
    service_code_update-IsElsewhere before =
        with_value-either (IsCodeElsewhere ws m) m (normalize_entry i) _
          (λ e. record { there = λ w h. refl })
          (λ i' p.
            with_value-either (IsCodeElsewhere ws m) m (CodeStore.get m ws id) _
              (λ e. record { there = λ w h. refl })
              (λ cur q. record {
                there =
                    (subst
                      (λ x.
                        IsCodeElsewhere x m (CodeStore.update m (CodeService.edited cur now i')))
                      (code_get_workspace m ws id cur before q)
                      (code_update-IsElsewhere m (CodeService.edited cur now i'))).there;
              }))
