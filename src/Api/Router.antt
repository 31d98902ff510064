-- ===== src/Api/Router.antt =====
-- internal/api/server.go: NewRouter. The matching of a path to its route is chi's, so that a request
-- comes with its route; an unauthenticated route reads no catalog but for Ping.
use booth_catalog.Prelude.{[], Option, some}
use booth_catalog.Text.{Text, Casing}
use booth_catalog.Data.Model.{Time}
use booth_catalog.App.{Services}
use booth_catalog.Auth.{
  Claims, Identity, Outcome, refused, passed, middleware, require, can_read, can_write,
}
use booth_catalog.Auth
use booth_catalog.Api.{Route, ReadRoute, WriteRoute, Query, Body, Response, reply, error_about}
use booth_catalog.Api
use booth_catalog.Api.Reading
use booth_catalog.Api.Reading.{Subscriptions}
use booth_catalog.Api.Writing
use booth_catalog.Api.Writing.{Decoders}

pub record Request : Type 0 where
  pub headers : Auth.Request
  pub route : Route
  pub query : Query
  pub body : Body

module _ ⦃u : Casing⦄ (dec : Decoders) (subs : Subscriptions) (s : Services) where
  -- The handlers of the two groups.
  unfoldable pub read_handler : Identity → ReadRoute → Query → Response
  read_handler id Api.get_config q = Reading.handle_config subs s
  read_handler id Api.search q = Reading.handle_search s id q
  read_handler id Api.list_datasets q = Reading.handle_list_datasets s id q
  read_handler id Api.list_tags q = Reading.handle_tags s id
  read_handler id Api.list_code q = Reading.handle_list_code s id q
  read_handler id Api.list_dashboards q = Reading.handle_list_dashboards s id q
  read_handler id (Api.get_dataset x) q = Reading.handle_get_dataset s id x
  read_handler id (Api.dataset_lineage x) q = Reading.handle_dataset_lineage s id x
  read_handler id (Api.get_code x) q = Reading.handle_get_code s id x
  read_handler id (Api.code_versions x) q = Reading.handle_code_versions s id x
  read_handler id (Api.get_dashboard x) q = Reading.handle_get_dashboard s id x
  read_handler id (Api.get_code_version x v) q = Reading.handle_get_code_version s id x v

  unfoldable pub write_handler : Identity → WriteRoute → Body → Text → Time → Response × Services
  write_handler id Api.create_dataset body new_id now =
      Writing.handle_create_dataset dec s id body new_id now
  write_handler id Api.create_code body new_id now =
      Writing.handle_create_code dec s id body new_id now
  write_handler id (Api.update_dataset x) body new_id now =
      Writing.handle_update_dataset dec s id x body now
  write_handler id (Api.delete_dataset x) body new_id now = Writing.handle_delete_dataset dec s id x
  write_handler id (Api.update_code x) body new_id now =
      Writing.handle_update_code dec s id x body now
  write_handler id (Api.delete_code x) body new_id now = Writing.handle_delete_code dec s id x
  write_handler id (Api.publish_code_version x) body new_id now =
      Writing.handle_publish_code_version dec s id x body now

  -- A middleware that refuses writes its error, and one that passes calls what it is around.
  abbrev pub unless_refused : Outcome → (Identity → Response × Services) → Response × Services
  unless_refused (refused status) next = (reply status (error_about []), s)
  unless_refused (passed id) next = next id

  -- auth.Require(CanRead) around the first group, and auth.Require(CanWrite) around the second
  abbrev pub routed : Identity → Route → Query → Body → Text → Time → Response × Services
  routed id (Api.reads r) q body new_id now =
      unless_refused (require can_read (some id)) (λ id. (read_handler id r q, s))
  routed id (Api.writes r) q body new_id now =
      unless_refused (require can_write (some id)) (λ id. write_handler id r body new_id now)

  unfoldable pub serve : (Text → Option Claims) → Request → Text → Time → Response × Services
  serve verify r new_id now =
      unless_refused (middleware verify r.headers)
        (λ id. routed id r.route r.query r.body new_id now)
