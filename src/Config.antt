-- ===== src/Config.antt =====
-- internal/config/config.go: the configuration that is read from the environment. os.Getenv is a function
-- that the model takes: a variable that is not set reads as the empty string.
pub mod Loading
use booth_catalog.Prelude.{
  ℕ, zero, suc, Bool, true, false, not, ◌&&◌, List, [], ◌==◌, nat_eq, list_eq, if◌then◌else◌,
  Option, none, some, ℤ, pos, negsuc, ◌⊎◌, inl, inr,
}
use booth_catalog.Text.{Text, txt}
use booth_catalog.Text.Number.{atoi}
use booth_catalog.Code.Service.{default_max_source_bytes}
use booth_catalog.Auth.Verifier.{OidcConfig, default_groups_claim}

pub record Config : Type 0 where
  pub http_addr : Text
  pub oidc : OidcConfig
  pub workload_issuer_url : Text
  pub postgres_dsn : Text
  pub nats_url : Text
  pub nats_creds_file : Text
  pub max_code_source_bytes : ℕ
  pub dev_memory : Bool

-- The errors of Load, by what they say is wrong.
pub data ConfigError : Type 0 where
  bad_max_code_bytes : Text → ConfigError
  creds_without_bus issuer_required client_id_required jwks_without_issuer dsn_required :
      ConfigError

abbrev pub Loaded : Type 0
Loaded = ConfigError ⊎ Config

-- The number of BOOTH_CATALOG_MAX_CODE_BYTES, where it is one and is not below 1.
abbrev pub positive_of : Option ℤ → Option ℕ
positive_of none = none
positive_of (some (pos zero)) = none
positive_of (some (pos (suc n))) = some (suc n)
positive_of (some (negsuc n)) = none

abbrev pub max_code_bytes : Text → Option ℕ
max_code_bytes v = if v == [] then some default_max_source_bytes else positive_of (atoi v)

-- The checks that follow the limit, in their order.
abbrev pub checked : Config → Loaded
checked cfg =
    if not (cfg.nats_creds_file == []) && cfg.nats_url == []
    then inl creds_without_bus
    else if cfg.oidc.issuer_url == []
    then inl issuer_required
    else if cfg.oidc.client_id == []
    then inl client_id_required
    else if not (cfg.oidc.jwks_url == []) && cfg.oidc.issuer_url == []
    then inl jwks_without_issuer
    else if not cfg.dev_memory && cfg.postgres_dsn == []
    then inl dsn_required
    else inr cfg

module _ (env : Text → Text) where
  abbrev pub get_env : Text → Text → Text
  get_env key fallback = if env key == [] then fallback else env key

  -- The configuration as it is read, but for the limit of a source.
  abbrev pub config_of : ℕ → Config
  config_of max_source = record {
    http_addr = get_env (txt "BOOTH_HTTP_ADDR") (txt ":8080");
    oidc = record {
      issuer_url = env (txt "BOOTH_OIDC_ISSUER_URL");
      client_id = env (txt "BOOTH_OIDC_CLIENT_ID");
      require_audience = env (txt "BOOTH_OIDC_REQUIRE_AUDIENCE") == txt "true";
      groups_claim = get_env (txt "BOOTH_OIDC_GROUPS_CLAIM") default_groups_claim;
      jwks_url = env (txt "BOOTH_OIDC_JWKS_URL");
    };
    workload_issuer_url = env (txt "BOOTH_WORKLOAD_ISSUER_URL");
    postgres_dsn = env (txt "BOOTH_POSTGRES_DSN");
    nats_url = env (txt "BOOTH_NATS_URL");
    nats_creds_file = env (txt "BOOTH_NATS_CREDS_FILE");
    max_code_source_bytes = max_source;
    dev_memory = env (txt "BOOTH_CATALOG_DEV_MEMORY") == txt "true";
  }

  abbrev pub with_limit : Option ℕ → Loaded
  with_limit none = inl (bad_max_code_bytes (env (txt "BOOTH_CATALOG_MAX_CODE_BYTES")))
  with_limit (some n) = checked (config_of n)

  unfoldable pub load : Loaded
  load = with_limit (max_code_bytes (env (txt "BOOTH_CATALOG_MAX_CODE_BYTES")))
