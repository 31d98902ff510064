-- ===== src/Code/Service/Placed.antt =====
-- The methods of internal/code/service.go that write, on a store whose entries stand in their places.
use booth_catalog.Prelude.{ℕ}
use booth_catalog.Text.{Text, Casing}
use booth_catalog.Asset.Actor.{Actor}
use booth_catalog.Asset.Error.{with_value-holds}
use booth_catalog.Data.Model.{Time}
use booth_catalog.Code.Model.{EntryInput, VersionInput, normalize_entry}
use booth_catalog.Code.Store.{MemoryStore}
use booth_catalog.Code.Store
use booth_catalog.Code.Store.Placed.{
  IsPlaced, create-IsPlaced, update-IsPlaced, add_version-IsPlaced,
}
use booth_catalog.Code.Service.{create, update, publish, edited}

module _ (m : MemoryStore) (before : IsPlaced m) (ws id : Text) (now : Time) where
  pub publish-IsPlaced :
      (max_source : ℕ) (actor : Actor) (v : VersionInput)
      → IsPlaced (publish max_source m ws actor id v now).1
  unfolding publish
  publish-IsPlaced max_source actor v =
      with_value-holds IsPlaced m _ _ before (λ v'. add_version-IsPlaced m ws id _ before)

  module _ ⦃u : Casing⦄ (i : EntryInput) where
    pub service_create-IsPlaced :
        (max_source : ℕ) (actor : Actor) (v : VersionInput)
        → IsPlaced (create max_source m ws actor i v id now).1
    unfolding create
    service_create-IsPlaced max_source actor v =
        with_value-holds IsPlaced m _ _ before (λ (e, v'). create-IsPlaced m _ _ before)

    pub service_update-IsPlaced : IsPlaced (update m ws id i now).1
    unfolding update
    service_update-IsPlaced = with_value-holds IsPlaced m (normalize_entry i) _ before (λ i'.
        with_value-holds IsPlaced m (Store.get m ws id) _ before
          (λ cur. update-IsPlaced m (edited cur now i') before))
