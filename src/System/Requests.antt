-- ===== src/System/Requests.antt =====
-- What a request leaves (internal/api over the in-memory catalogs).
use booth_catalog.Prelude.{nat_eq, list_eq, Option, Bool-cases, inl, inr}
use booth_catalog.Text.{Text, Casing}
use booth_catalog.Data.Model.{Time}
use booth_catalog.Data.Store as DataStore
use booth_catalog.Data.Store.Kept as Kept
use booth_catalog.Data.Service.Writes.{writes-IsWellFormed}
use booth_catalog.Data.Service.Kept.{service_delete-IsWellFormed}
use booth_catalog.Code.Store as CodeStore
use booth_catalog.Code.Store.Placed.{IsPlaced, delete-IsPlaced}
use booth_catalog.Code.Service.Placed.{
  publish-IsPlaced, service_create-IsPlaced, service_update-IsPlaced,
}
use booth_catalog.Dashboards.Store.Register as Register
use booth_catalog.Dashboards.Service.Sourced.{HasCanonicalSources}
use booth_catalog.App.{Services}
use booth_catalog.Auth.{Claims, Identity, refused, passed, middleware, can_read, can_write}
use booth_catalog.Api.{
  Route, WriteRoute, Body, Content, Resource, Response, Decoded, too_large, malformed, decoded,
  with_body,
}
use booth_catalog.Api
use booth_catalog.Api.Reading.{Subscriptions}
use booth_catalog.Api.Writing
use booth_catalog.Api.Writing.{Decoders, with_datasets, with_entries}
use booth_catalog.Api.Router.{Request, write_handler, routed, unless_refused, serve}
use booth_catalog.System.{IsUnused}

-- The four catalogs' invariants together.
pub record IsSound (s : Services) : Type 0 where
  pub datasets : Kept.IsWellFormed s.datasets
  pub entries : IsPlaced s.entries
  pub boards : Register.IsWellFormed s.boards
  pub sources : HasCanonicalSources s.boards

with_body-IsSound :
    {T : Type 0} (s : Services) (d : Decoded T) (f : T → Response × Services)
    → IsSound s
    → ((x : T) → IsSound (f x).1)
    → IsSound (with_body s d f).1
with_body-IsSound s too_large f sound h = sound
with_body-IsSound s malformed f sound h = sound
with_body-IsSound s (decoded x) f sound h = h x

module _ (s : Services) (sound : IsSound s) where
  pub data-IsSound :
      (m : DataStore.MemoryStore) → Kept.IsWellFormed m → IsSound (record s { datasets = m })
  data-IsSound m h = record {
    datasets = h;
    entries = sound.entries;
    boards = sound.boards;
    sources = sound.sources;
  }

  code-IsSound : (m : CodeStore.MemoryStore) → IsPlaced m → IsSound (record s { entries = m })
  code-IsSound m h = record {
    datasets = sound.datasets;
    entries = h;
    boards = sound.boards;
    sources = sound.sources;
  }

  module _ ⦃u : Casing⦄ (dec : Decoders) (subs : Subscriptions) (new_id : Text) (now : Time)
      (new : IsUnused new_id s.datasets) where
    write_handler-IsSound :
        (id : Identity) (r : WriteRoute) (body : Body)
        → IsSound (write_handler dec subs s id r body new_id now).1
    unfolding write_handler Writing.handle_create_dataset Writing.handle_update_dataset
        Writing.handle_delete_dataset Writing.handle_create_code Writing.handle_update_code
        Writing.handle_delete_code Writing.handle_publish_code_version
    write_handler-IsSound id Api.create_dataset body = with_body-IsSound s _ _ sound (λ i.
        data-IsSound _ (
          (writes-IsWellFormed s.datasets id.workspace new_id (Api.actor id) i now sound.datasets).0
            (new id.workspace)))
    write_handler-IsSound id (Api.update_dataset x) body = with_body-IsSound s _ _ sound (λ i.
        data-IsSound _
          (writes-IsWellFormed s.datasets id.workspace x (Api.actor id) i now sound.datasets).1)
    write_handler-IsSound id (Api.delete_dataset x) body = data-IsSound _ (
        service_delete-IsWellFormed s.datasets sound.datasets id.workspace x
          (Writing.is_owner id.role))
    write_handler-IsSound id Api.create_code body = with_body-IsSound s _ _ sound (λ (e, v).
        code-IsSound _ (
          service_create-IsPlaced s.entries sound.entries id.workspace new_id now e s.max_source
            (Api.actor id) v))
    write_handler-IsSound id (Api.update_code x) body =
        with_body-IsSound s _ _ sound (λ i.
          code-IsSound _ (service_update-IsPlaced s.entries sound.entries id.workspace x now i))
    write_handler-IsSound id (Api.delete_code x) body =
        code-IsSound _ (delete-IsPlaced s.entries id.workspace x sound.entries)
    write_handler-IsSound id (Api.publish_code_version x) body = with_body-IsSound s _ _ sound (λ v.
        code-IsSound _ (
          publish-IsPlaced s.entries sound.entries id.workspace x now s.max_source (Api.actor id)
            v))

    routed-IsSound :
        (i : Identity) (route : Route) (q : Api.Query) (body : Body)
        → IsSound (routed dec subs s i route q body new_id now).1
    routed-IsSound i (Api.reads x) q body = elim (Bool-cases (can_read i)) [
      | inl p ↦ rw p sound
      | inr p ↦ rw p sound
    ]
    routed-IsSound i (Api.writes x) q body = elim (Bool-cases (can_write i)) [
      | inl p ↦ rw p (write_handler-IsSound i x body)
      | inr p ↦ rw p sound
    ]

    pub serve-IsSound :
        (verify : Text → Option Claims) (r : Request)
        → IsSound (serve dec subs s verify r new_id now).1
    unfolding serve
    serve-IsSound verify r =
        elim (middleware verify r.headers)
          as (λ o.
            IsSound
              (unless_refused dec subs s o
                (λ id. routed dec subs s id r.route r.query r.body new_id now)).1) [
                  | refused status ↦ sound
                  | passed i ↦ routed-IsSound i r.route r.query r.body
                ]
