-- ===== src/Api/Isolation/Served.antt =====
-- A request touches no workspace but its own (internal/api/server.go over the three catalogs).
use booth_catalog.Prelude.{Option, ◌≡◌, ◌≢◌, refl, subst, Bool-cases, inl, inr}
use booth_catalog.Text.{Text, Casing}
use booth_catalog.Asset.Error.{Result}
use booth_catalog.Data.Model.{Time}
use booth_catalog.Data.Store as DataStore
use booth_catalog.Data.Store.Placed as DataPlaced
use booth_catalog.Code.Store as CodeStore
use booth_catalog.Code.Store.Placed.{IsPlaced}
use booth_catalog.App.{Services}
use booth_catalog.Auth.{Claims, Identity, Outcome, refused, passed, middleware, can_read, can_write}
use booth_catalog.Auth.Roles.{middleware-IsEntitled}
use booth_catalog.Api.{
  Route, WriteRoute, Body, Content, Resource, Response, Decoded, too_large, malformed, decoded,
  with_body,
}
use booth_catalog.Api
use booth_catalog.Api.Reading.{Subscriptions}
use booth_catalog.Api.Writing
use booth_catalog.Api.Writing.{Decoders, with_datasets, with_entries}
use booth_catalog.Api.Router.{Request, write_handler, routed, unless_refused, serve}
use booth_catalog.Api.Isolation

-- The other workspaces are as they were in the catalogs of datasets and of code, and every workspace is in
-- that of dashboards.
abbrev pub IsIsolated : Text → Services → Services → Type 0
IsIsolated ws s s' =
    ((w : Text)
      → ws ≢ w
      → (s'.datasets.by_ws w ≡ s.datasets.by_ws w)
        × (s'.datasets.tombstoned w ≡ s.datasets.tombstoned w)
        × (s'.entries w ≡ s.entries w))
    × (s'.boards ≡ s.boards)

untouched : (ws : Text) (s : Services) → IsIsolated ws s s
untouched ws s = ((λ w h. (refl, refl, refl)), refl)

with_datasets-IsIsolated :
    {A : Type 0} (ws : Text) (s : Services) (r : Result A × DataStore.MemoryStore)
    → Isolation.IsElsewhere ws s.datasets r
    → IsIsolated ws s (record s { datasets = r.1 })
with_datasets-IsIsolated ws s r is = ((λ w h. let (a, b) = is.there w h in (a, b, refl)), refl)

with_entries-IsIsolated :
    {A : Type 0} (ws : Text) (s : Services) (r : Result A × CodeStore.MemoryStore)
    → Isolation.IsCodeElsewhere ws s.entries r
    → IsIsolated ws s (record s { entries = r.1 })
with_entries-IsIsolated ws s r is = ((λ w h. (refl, refl, is.there w h)), refl)

with_body-IsIsolated :
    {T : Type 0} (ws : Text) (s : Services) (d : Decoded T) (f : T → Response × Services)
    → ((x : T) → IsIsolated ws s (f x).1)
    → IsIsolated ws s (with_body s d f).1
with_body-IsIsolated ws s too_large f h = untouched ws s
with_body-IsIsolated ws s malformed f h = untouched ws s
with_body-IsIsolated ws s (decoded x) f h = h x

module _ ⦃u : Casing⦄ (dec : Decoders) (subs : Subscriptions) (s : Services)
    (placed : DataPlaced.IsPlaced s.datasets) (placed' : IsPlaced s.entries) where
  write_handler-IsIsolated :
      (id : Identity) (r : WriteRoute) (body : Body) (new_id : Text) (now : Time)
      → IsIsolated id.workspace s (write_handler dec subs s id r body new_id now).1
  unfolding write_handler Writing.handle_create_dataset Writing.handle_update_dataset
      Writing.handle_delete_dataset Writing.handle_create_code Writing.handle_update_code
      Writing.handle_delete_code Writing.handle_publish_code_version
  write_handler-IsIsolated id Api.create_dataset body new_id now =
      with_body-IsIsolated id.workspace s (dec.input Api.max_json_body body) _ (λ i.
        with_datasets-IsIsolated id.workspace s _ (
          Isolation.service_create-IsElsewhere s.datasets id.workspace new_id now i (Api.actor id)))
  write_handler-IsIsolated id (Api.update_dataset x) body new_id now =
      with_body-IsIsolated id.workspace s (dec.input Api.max_json_body body) _ (λ i.
        with_datasets-IsIsolated id.workspace s _
          (Isolation.service_update-IsElsewhere s.datasets id.workspace x now i placed))
  write_handler-IsIsolated id (Api.delete_dataset x) body new_id now =
      with_datasets-IsIsolated id.workspace s _
        (Isolation.service_delete-IsElsewhere s.datasets id.workspace x (Writing.is_owner id.role))
  write_handler-IsIsolated id Api.create_code body new_id now =
      with_body-IsIsolated id.workspace s (dec.create_input (Api.code_body_limit s.max_source) body)
        _
        (λ (e, v). with_entries-IsIsolated id.workspace s _ (
          Isolation.service_code_create-IsElsewhere s.entries id.workspace new_id now e s.max_source
            (Api.actor id) v))
  write_handler-IsIsolated id (Api.update_code x) body new_id now =
      with_body-IsIsolated id.workspace s (dec.entry_input Api.max_json_body body) _ (λ i.
        with_entries-IsIsolated id.workspace s _
          (Isolation.service_code_update-IsElsewhere s.entries id.workspace x now i placed'))
  write_handler-IsIsolated id (Api.delete_code x) body new_id now =
      with_entries-IsIsolated id.workspace s _
        (Isolation.code_delete-IsElsewhere s.entries id.workspace x)
  write_handler-IsIsolated id (Api.publish_code_version x) body new_id now =
      with_body-IsIsolated id.workspace s
        (dec.version_input (Api.code_body_limit s.max_source) body) _
        (λ v. with_entries-IsIsolated id.workspace s _ (
          Isolation.service_publish-IsElsewhere s.entries id.workspace x now s.max_source
            (Api.actor id) v))

  module _ (verify : Text → Option Claims) (r : Request) (new_id : Text) (now : Time) where
    routed-IsIsolated :
        (i : Identity) (route : Route)
        → IsIsolated i.workspace s (routed dec subs s i route r.query r.body new_id now).1
    routed-IsIsolated i (Api.reads x) = elim (Bool-cases (can_read i)) [
      | inl p ↦ rw p (untouched i.workspace s)
      | inr p ↦ rw p (untouched i.workspace s)
    ]
    routed-IsIsolated i (Api.writes x) = elim (Bool-cases (can_write i)) [
      | inl p ↦ rw p (write_handler-IsIsolated i x r.body new_id now)
      | inr p ↦ rw p (untouched i.workspace s)
    ]

    -- Whatever a request is, the catalogs of datasets and of code are afterwards as they were in every
    -- workspace but the one that its header names, and the catalog of dashboards is as it was, given that
    -- every row of the two catalogs stands under its own ID and workspace.
    pub serve-IsIsolated : IsIsolated r.headers.workspace s (serve dec subs s verify r new_id now).1
    unfolding serve
    serve-IsIsolated = by_outcome (middleware verify r.headers) refl
      where
        by_outcome :
            (o : Outcome)
            → middleware verify r.headers ≡ o
            → IsIsolated r.headers.workspace s
                (unless_refused dec subs s o
                  (λ id. routed dec subs s id r.route r.query r.body new_id now)).1
        by_outcome (refused status) h = untouched r.headers.workspace s
        by_outcome (passed i) h =
            let (c, v, is) = middleware-IsEntitled verify r.headers i h in
            subst (λ x. IsIsolated x s (routed dec subs s i r.route r.query r.body new_id now).1)
              is.0 (routed-IsIsolated i r.route)
