-- ===== src/Tests/Startup.antt =====
-- Examples for internal/config and for Verifier of internal/auth.
use booth_catalog.Prelude.{
  ℕ, ◌≡◌, ◌≢◌, ◌↔◌, refl, Bool, true, false, List, [], ◌∷◌, Option, none, some, inr, ◌⊎◌, list_eq,
  nat_eq, ◌==◌, if◌then◌else◌, arith,
}
use booth_catalog.Prelude
use booth_catalog.Text.{Text, txt}
use booth_catalog.Text
use booth_catalog.Config.{config_of, load}
use booth_catalog.Config.Loading.{Reads, IsComplete, load_iff}
use booth_catalog.Auth.{
  Role, Request, Claims, Identity, middleware, bearer_token, role_in_workspace, passed, viewer,
}
use booth_catalog.Auth
use booth_catalog.Auth.Roles.{Grants}
use booth_catalog.Auth.Verifier.{IdTokenVerifier, IdToken, Verifier, Keys, verify}
use booth_catalog.Auth.Verifier.Reading.{
  IsDisplayed, IsGrouped, verify-IsDisplayed, middleware-verify,
}
use booth_catalog.Tests.Ascii.{ascii}

abbrev env : Text → Text
env key =
    if key == txt "BOOTH_OIDC_ISSUER_URL"
    then txt "https://id"
    else if key == txt "BOOTH_OIDC_CLIENT_ID"
    then txt "booth"
    else if key == txt "BOOTH_CATALOG_DEV_MEMORY"
    then txt "true"
    else if key == txt "BOOTH_CATALOG_MAX_CODE_BYTES"
    then txt "+512"
    else []

env_is_loaded : load env ≡ inr (config_of env 512)
unfolding load Prelude.list_beq booth_catalog.Text.Number.atoi booth_catalog.Text.Number.digits_from
env_is_loaded = refl

load_iff_example :
    (load env ≡ inr (config_of env 512))
    ↔ (Reads env (config_of env 512) × IsComplete (config_of env 512))
load_iff_example = load_iff env (config_of env 512)

-- A claim is a list of texts here.
abbrev decode_groups : List Text → List Text
decode_groups g = g

abbrev decode_text : List Text → Option Text
decode_text [] = none
decode_text (s ∷ ss) = some s

abbrev raw : Text → Option (List Text)
raw name =
    if name == txt "groups"
    then some (txt "/workspaces/w/viewer" ∷ [])
    else if name == txt "email"
    then some (txt " anna@x " ∷ [])
    else none

abbrev token : IdToken (List Text)
token = record { subject = txt "u1"; claims = some raw }

abbrev id_token : IdTokenVerifier → Text → Option (IdToken (List Text))
id_token v t = some token

abbrev verifier : Verifier
verifier = record {
  id_token_verifier = record {
    issuer = txt "https://id";
    keys = Keys.discovered (txt "https://id");
    skip_client_id_check = true;
    client_id = txt "booth";
  };
  groups_claim = txt "groups";
}

abbrev claims : Claims
claims = record {
  subject = txt "u1";
  display_name = txt "anna@x";
  groups = txt "/workspaces/w/viewer" ∷ [];
}

token_is_verified : verify id_token decode_groups decode_text verifier (txt "t") ≡ some claims
unfolding verify Prelude.list_beq Text.trim_space
token_is_verified = refl

verify-IsDisplayed_example :
    (t : IdToken (List Text)) × (raw' : (Text → Option (List Text))) × (some token ≡ some t)
    × (t.claims ≡ some raw')
    × (t.subject ≢ [])
    × (txt "u1" ≡ t.subject)
    × IsDisplayed id_token decode_groups decode_text raw' t.subject (txt "anna@x")
    × IsGrouped id_token decode_groups decode_text raw' (txt "groups") claims.groups
verify-IsDisplayed_example =
    verify-IsDisplayed id_token decode_groups decode_text verifier (txt "t") claims
      token_is_verified

abbrev request : Request
request = record { authorization = txt "Bearer t"; workspace = txt "w"; role = Role.unset }

abbrev anna : Identity
anna = record {
  subject = txt "u1";
  display_name = txt "anna@x";
  workspace = txt "w";
  role = viewer;
}

request_passes :
    middleware (verify id_token decode_groups decode_text verifier) request ≡ passed anna
unfolding verify middleware bearer_token role_in_workspace Auth.best_role Auth.parse_group
    Auth.effective_role Text.equal_fold Text.split Text.trim_space Text.trim_left Text.trim_right
    Text.is_space Prelude.list_beq
request_passes = refl

middleware-verify_example :
    (t : IdToken (List Text)) × (raw' : (Text → Option (List Text))) × (g : List Text) × (some token
      ≡ some t)
    × (t.subject ≢ [])
    × (anna.subject ≡ t.subject)
    × (raw' (txt "groups") ≡ some g)
    × Grants (txt "w") (role_in_workspace (decode_groups g) (txt "w")) (decode_groups g)
middleware-verify_example =
    middleware-verify id_token decode_groups decode_text verifier request anna request_passes
