-- ===== src/Api/Writing.antt =====
-- internal/api/server.go: the handlers that write, over the in-memory catalogs. A handler returns the
-- catalogs after it; the clock and asset.NewID are arguments.
use booth_catalog.Prelude.{ℕ, Bool, true, false}
use booth_catalog.Text.{Text, Casing}
use booth_catalog.Asset.Error.{Result}
use booth_catalog.Data.Model.{Time, Input}
use booth_catalog.Data.Store as DataStore
use booth_catalog.Data.Service as DataService
use booth_catalog.Code.Model.{EntryInput, VersionInput}
use booth_catalog.Code.Store as CodeStore
use booth_catalog.Code.Service as CodeService
use booth_catalog.App.{Services}
use booth_catalog.Auth.{Identity, Role, owner}
use booth_catalog.Api.{
  Response, Content, Resource, reply, respond, with_body, Decoder, Body, actor, max_json_body,
  code_body_limit, empty, dataset_resource, code_resource, version_resource,
}
use booth_catalog.Api

-- The decoders of the four kinds of body.
pub record Decoders : Type 0 where
  pub input : Decoder Input
  pub entry_input : Decoder EntryInput
  pub version_input : Decoder VersionInput
  -- code.CreateInput: an EntryInput and a VersionInput
  pub create_input : Decoder (EntryInput × VersionInput)

abbrev pub is_owner : Role → Bool
is_owner owner = true
is_owner _ = false

-- A handler's answer from a service's, and the catalogs with the store that it left.
abbrev pub with_datasets :
    {A : Type 0}
    → Services
    → Resource
    → ℕ
    → (A → Content)
    → Result A × DataStore.MemoryStore
    → Response × Services
with_datasets s res status f r = (respond res status f r.0, record s { datasets = r.1 })

abbrev pub with_entries :
    {A : Type 0}
    → Services
    → Resource
    → ℕ
    → (A → Content)
    → Result A × CodeStore.MemoryStore
    → Response × Services
with_entries s res status f r = (respond res status f r.0, record s { entries = r.1 })

module _ (dec : Decoders) (s : Services) (id : Identity) where
  unfoldable pub handle_delete_dataset : Text → Response × Services
  handle_delete_dataset ds =
      with_datasets s dataset_resource 204 (λ done. empty)
        (DataService.delete s.datasets id.workspace ds (is_owner id.role))

  unfoldable pub handle_delete_code : Text → Response × Services
  handle_delete_code e =
      with_entries s code_resource 204 (λ done. empty) (CodeStore.delete s.entries id.workspace e)

  unfoldable pub handle_publish_code_version : Text → Body → Time → Response × Services
  handle_publish_code_version e body now =
      with_body s (dec.version_input (code_body_limit s.max_source) body) (λ i.
        with_entries s version_resource 201 (λ v. Api.summary v.summary)
          (CodeService.publish s.max_source s.entries id.workspace (actor id) e i now))

  module _ ⦃u : Casing⦄ where
    unfoldable pub handle_create_dataset : Body → Text → Time → Response × Services
    handle_create_dataset body new_id now = with_body s (dec.input max_json_body body) (λ i.
        with_datasets s dataset_resource 201 Api.dataset
          (DataService.create s.datasets id.workspace (actor id) i new_id now))

    unfoldable pub handle_update_dataset : Text → Body → Time → Response × Services
    handle_update_dataset ds body now = with_body s (dec.input max_json_body body) (λ i.
        with_datasets s dataset_resource 200 Api.dataset
          (DataService.update s.datasets id.workspace ds i now))

    unfoldable pub handle_create_code : Body → Text → Time → Response × Services
    handle_create_code body new_id now =
        with_body s (dec.create_input (code_body_limit s.max_source) body) (λ (e, v).
          with_entries s code_resource 201 Api.entry
            (CodeService.create s.max_source s.entries id.workspace (actor id) e v new_id now))

    unfoldable pub handle_update_code : Text → Body → Time → Response × Services
    handle_update_code e body now = with_body s (dec.entry_input max_json_body body) (λ i.
        with_entries s code_resource 200 Api.entry
          (CodeService.update s.entries id.workspace e i now))
