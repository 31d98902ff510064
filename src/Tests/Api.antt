-- ===== src/Tests/Api.antt =====
-- Examples for internal/api and internal/app.
use booth_catalog.Prelude.{
  ℕ, ◌≡◌, ◌<◌, ◌⊎◌, refl, Bool, true, false, List, [], ◌∷◌, Option, none, some, map, take, flatten,
  ℤ, pos, list_eq, nat_eq, inl, arith,
}
use booth_catalog.Prelude
use booth_catalog.Text.{Text, txt}
use booth_catalog.Text
use booth_catalog.Asset.Error.{ok}
use booth_catalog.Asset.Matching.{AssetType}
use booth_catalog.Asset.Paging.{clamp_limit}
use booth_catalog.Asset.Hits.{sort_hits}
use booth_catalog.Asset.Location.{no_location}
use booth_catalog.Data.Model.{Input, Format}
use booth_catalog.Data.Store.Reach
use booth_catalog.Code.Store.Placed.{new_store-IsPlaced}
use booth_catalog.Search.{check_query, wanted}
use booth_catalog.Auth.{Role, Claims, Identity}
use booth_catalog.App.{Services, new_memory, search}
use booth_catalog.App.Found.{matching, search-eq-top}
use booth_catalog.Api
use booth_catalog.Api.{too_large, malformed, decoded}
use booth_catalog.Api.Reading.{Subscriptions}
use booth_catalog.Api.Writing.{Decoders}
use booth_catalog.Api.Router.{Request, serve}
use booth_catalog.Api.Safety.{IsAuthorized, serve-IsSafe}
use booth_catalog.Api.Isolation.Served.{IsIsolated, serve-IsIsolated}
use booth_catalog.System.{IsUnused, serves, start, step}
use booth_catalog.System.Requests.{IsSound}
use booth_catalog.System.Reached.{Reached-IsSound}
use booth_catalog.Tests.Ascii.{ascii}

abbrev catalogs : Services
catalogs = new_memory (pos 0)

abbrev input : Input
input = record {
  name = txt "orders";
  description = [];
  location = record { backend_id = txt "s3"; path = txt "raw/orders" };
  schema = [];
  tags = [];
  owner = [];
  format = Format.unset;
  postgres_table = none;
}

-- A body of two bytes is what the editor sends.
abbrev decoders : Decoders
decoders = record {
  input = λ limit body. decoded input;
  entry_input = λ limit body. malformed;
  version_input = λ limit body. malformed;
  create_input = λ limit body. too_large;
}

abbrev subscriptions : Subscriptions
subscriptions = record { events = none; table_events = none; database_table_events = none }

abbrev editor_claims : Claims
editor_claims = record {
  subject = txt "u1";
  display_name = txt "anna";
  groups = txt "/workspaces/w/editor" ∷ [];
}

abbrev verify : Text → Option Claims
verify t = some editor_claims

abbrev creation : Request
creation = record {
  headers = record { authorization = txt "Bearer t"; workspace = txt "w"; role = Role.unset };
  route = Api.writes Api.create_dataset;
  query = λ name. [];
  body = 123 ∷ 125 ∷ [];
}

created : (serve decoders subscriptions catalogs verify creation (txt "d1") 7).0.status ≡ 201
unfolding serve booth_catalog.Auth.middleware Prelude.list_beq booth_catalog.Auth.bearer_token
    Text.equal_fold Text.trim_space Text.trim_left Text.trim_right Text.is_space Text.is_control
    booth_catalog.Auth.role_in_workspace booth_catalog.Auth.best_role booth_catalog.Auth.parse_group
    Text.split booth_catalog.Auth.effective_role booth_catalog.Api.Router.write_handler
    booth_catalog.Api.Writing.handle_create_dataset booth_catalog.Data.Service.create
    booth_catalog.Data.Service.checked_input booth_catalog.Asset.Validation.valid_workspace
    booth_catalog.Asset.Validation.text booth_catalog.Regexp.matches booth_catalog.Regexp.up_to
    booth_catalog.Regexp.derivative booth_catalog.Regexp.nullable booth_catalog.Data.Input.normalize
    booth_catalog.Asset.Location.normalize_location booth_catalog.Asset.Location.backend_id_re
    Text.trim_suffix Text.byte_len Text.bytes Text.encode booth_catalog.Data.Input.normalize_schema
    booth_catalog.Data.Input.normalize_columns booth_catalog.Data.Input.normalize_tags
    booth_catalog.Data.Input.collect_tags booth_catalog.Data.Store.create
    booth_catalog.Data.Store.name_taken
created = refl

serve-IsSafe_example :
    ((serve decoders subscriptions catalogs verify creation (txt "d1") 7).1 ≡ catalogs)
    ⊎ (((serve decoders subscriptions catalogs verify creation (txt "d1") 7).0.status < 300)
        × IsAuthorized verify creation)
serve-IsSafe_example = serve-IsSafe decoders subscriptions catalogs verify creation (txt "d1") 7

serve-IsIsolated_example :
    IsIsolated
      (txt "w")
      catalogs
      (serve decoders subscriptions catalogs verify creation (txt "d1") 7).1
serve-IsIsolated_example =
    serve-IsIsolated decoders subscriptions catalogs (λ ws. (Reach.new_store-IsWellFormed ws).keyed)
      new_store-IsPlaced verify creation (txt "d1") 7

d1-IsUnused : IsUnused (txt "d1") catalogs.datasets
unfolding Prelude.GoMap.get
d1-IsUnused ws = (refl, λ h. absurd (ground arith))

Reached-IsSound_example :
    IsSound (serve decoders subscriptions catalogs verify creation (txt "d1") 7).1
Reached-IsSound_example =
    Reached-IsSound decoders subscriptions verify (λ p. inl (txt "none"))
      (serve decoders subscriptions catalogs verify creation (txt "d1") 7).1
      (step (start (pos 0)) (serves creation (txt "d1") 7 d1-IsUnused))

query_is_accepted : check_query (txt " ord ") true ≡ ok (txt "ord")
unfolding check_query Text.trim_space Prelude.list_beq booth_catalog.Asset.Matching.terms
query_is_accepted = refl

search-eq-top_example :
    search catalogs (txt "w") (txt " ord ") [] (pos 0)
    ≡ ok (record {
      query = txt "ord";
      hits =
          take (clamp_limit (pos 0)) (
            sort_hits (flatten (map (λ t. matching catalogs t (txt "w") (txt "ord")) (wanted []))));
    })
search-eq-top_example =
    search-eq-top catalogs (txt "w") (txt " ord ") (txt "ord") [] (pos 0) query_is_accepted
