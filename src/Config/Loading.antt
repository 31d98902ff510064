-- ===== src/Config/Loading.antt =====
-- Which environments Load accepts (internal/config/config.go).
use booth_catalog.Prelude.{
  ℕ, zero, suc, ◌≤◌, ◌⊎◌, ◌==◌, ℤ, pos, negsuc, Bool, true, Bool-cases, refl, false, [], eq_iff,
  nat_eq, list_eq, Option, none, some, inl, inr, ◌≡◌, ◌≢◌, ◌↔◌, subst, arith, Option-cases, sym, ap,
  ◌∙◌,
}
use booth_catalog.Text.{Text, txt}
use booth_catalog.Text.Number.{atoi}
use booth_catalog.Config.{
  positive_of, get_env, Config, max_code_bytes, config_of, checked, with_limit, load,
}

-- An issuer and a client are named, credentials have a bus to connect to, and there is a database unless
-- the stores are in memory.
pub record IsComplete (cfg : Config) : Type 0 where
  pub bus : cfg.nats_creds_file ≢ [] → cfg.nats_url ≢ []
  pub issuer : cfg.oidc.issuer_url ≢ []
  pub client : cfg.oidc.client_id ≢ []
  pub database : cfg.dev_memory ≡ false → cfg.postgres_dsn ≢ []

checked_sound : (c cfg : Config) → checked c ≡ inr cfg → (c ≡ cfg) × IsComplete c
checked_sound c cfg h = (
  ground arith,
  record {
    bus = ground (arith, eq_iff c.nats_creds_file [], eq_iff c.nats_url []);
    issuer = ground (arith, eq_iff c.oidc.issuer_url []);
    client = ground (arith, eq_iff c.oidc.client_id []);
    database = ground (arith, eq_iff c.postgres_dsn []);
  },
)

checked_complete : (c : Config) → IsComplete c → checked c ≡ inr c
checked_complete c is = ground (
  arith,
  eq_iff c.nats_creds_file [],
  eq_iff c.nats_url [],
  eq_iff c.oidc.issuer_url [],
  eq_iff c.oidc.client_id [],
  eq_iff c.postgres_dsn [],
  is.bus,
  is.issuer,
  is.client,
  is.database,
)

-- A variable that is set, or its default.
abbrev pub IsSetOr : Text → Text → Text → Type 0
IsSetOr var fallback value = ((var ≢ []) × (value ≡ var)) ⊎ ((var ≡ []) × (value ≡ fallback))

-- The limit of a source: 1 MiB where the variable is left out, else the positive integer that it is.
abbrev pub IsLimit : Text → ℕ → Type 0
IsLimit var n = ((var ≡ []) × (n ≡ 1_048_576)) ⊎ ((var ≢ []) × (1 ≤ n) × (atoi var ≡ some (pos n)))

-- The configuration holds what the environment says, variable by variable.
pub record Reads (env : Text → Text) (cfg : Config) : Type 0 where
  pub http_addr : IsSetOr (env (txt "BOOTH_HTTP_ADDR")) (txt ":8080") cfg.http_addr
  pub issuer_url : cfg.oidc.issuer_url ≡ env (txt "BOOTH_OIDC_ISSUER_URL")
  pub client_id : cfg.oidc.client_id ≡ env (txt "BOOTH_OIDC_CLIENT_ID")
  pub require_audience :
      (cfg.oidc.require_audience ≡ true) ↔ (env (txt "BOOTH_OIDC_REQUIRE_AUDIENCE") ≡ txt "true")
  pub groups_claim :
      IsSetOr (env (txt "BOOTH_OIDC_GROUPS_CLAIM")) (txt "groups") cfg.oidc.groups_claim
  pub jwks_url : cfg.oidc.jwks_url ≡ env (txt "BOOTH_OIDC_JWKS_URL")
  pub workload_issuer_url : cfg.workload_issuer_url ≡ env (txt "BOOTH_WORKLOAD_ISSUER_URL")
  pub postgres_dsn : cfg.postgres_dsn ≡ env (txt "BOOTH_POSTGRES_DSN")
  pub nats_url : cfg.nats_url ≡ env (txt "BOOTH_NATS_URL")
  pub nats_creds_file : cfg.nats_creds_file ≡ env (txt "BOOTH_NATS_CREDS_FILE")
  pub dev_memory : (cfg.dev_memory ≡ true) ↔ (env (txt "BOOTH_CATALOG_DEV_MEMORY") ≡ txt "true")
  pub max_code_source_bytes :
      IsLimit (env (txt "BOOTH_CATALOG_MAX_CODE_BYTES")) cfg.max_code_source_bytes

positive_of_iff : (o : Option ℤ) (n : ℕ) → (positive_of o ≡ some n) ↔ ((1 ≤ n) × (o ≡ some (pos n)))
positive_of_iff none n = ground arith
positive_of_iff (some (pos zero)) n = ground arith
positive_of_iff (some (pos (suc m))) n = ground arith
positive_of_iff (some (negsuc m)) n = ground arith

max_code_bytes_iff : (var : Text) (n : ℕ) → (max_code_bytes var ≡ some n) ↔ IsLimit var n
max_code_bytes_iff var n = elim (Bool-cases (var == [])) [
  | inl p ↦ rw p (ground (arith, eq_iff var []))
  | inr p ↦ rw p (ground (arith, eq_iff var [], positive_of_iff (atoi var) n))
]

get_env_iff :
    (env : Text → Text) (key fallback value : Text)
    → (value ≡ get_env env key fallback) ↔ IsSetOr (env key) fallback value
get_env_iff env key fallback value = ground (arith, eq_iff (env key) [])

flag_iff : (var : Text) (b : Bool) → (b ≡ (var == txt "true")) ↔ ((b ≡ true) ↔ (var ≡ txt "true"))
flag_iff var true = ground (arith, eq_iff var (txt "true"))
flag_iff var false = ground (arith, eq_iff var (txt "true"))

config_of-Reads :
    (env : Text → Text) (n : ℕ)
    → max_code_bytes (env (txt "BOOTH_CATALOG_MAX_CODE_BYTES")) ≡ some n
    → Reads env (config_of env n)
config_of-Reads env n h = record {
  http_addr = (get_env_iff env (txt "BOOTH_HTTP_ADDR") (txt ":8080") _).0 refl;
  issuer_url = refl;
  client_id = refl;
  require_audience = (flag_iff (env (txt "BOOTH_OIDC_REQUIRE_AUDIENCE")) _).0 refl;
  groups_claim = (get_env_iff env (txt "BOOTH_OIDC_GROUPS_CLAIM") (txt "groups") _).0 refl;
  jwks_url = refl;
  workload_issuer_url = refl;
  postgres_dsn = refl;
  nats_url = refl;
  nats_creds_file = refl;
  dev_memory = (flag_iff (env (txt "BOOTH_CATALOG_DEV_MEMORY")) _).0 refl;
  max_code_source_bytes = (max_code_bytes_iff (env (txt "BOOTH_CATALOG_MAX_CODE_BYTES")) n).0 h;
}

Reads-unique :
    (env : Text → Text) (cfg : Config)
    → Reads env cfg
    → cfg ≡ config_of env cfg.max_code_source_bytes
Reads-unique env cfg is = λ i. record {
  http_addr = (get_env_iff env (txt "BOOTH_HTTP_ADDR") (txt ":8080") _).1 is.http_addr i;
  oidc = record {
    issuer_url = is.issuer_url i;
    client_id = is.client_id i;
    require_audience =
        (flag_iff (env (txt "BOOTH_OIDC_REQUIRE_AUDIENCE")) cfg.oidc.require_audience).1
          is.require_audience i;
    groups_claim =
        (get_env_iff env (txt "BOOTH_OIDC_GROUPS_CLAIM") (txt "groups") _).1 is.groups_claim i;
    jwks_url = is.jwks_url i;
  };
  workload_issuer_url = is.workload_issuer_url i;
  postgres_dsn = is.postgres_dsn i;
  nats_url = is.nats_url i;
  nats_creds_file = is.nats_creds_file i;
  max_code_source_bytes = cfg.max_code_source_bytes;
  dev_memory = (flag_iff (env (txt "BOOTH_CATALOG_DEV_MEMORY")) cfg.dev_memory).1 is.dev_memory i;
}

-- Load accepts an environment, and returns a configuration, exactly if the configuration holds what the
-- environment says, variable by variable, with the defaults where a variable is left out; if the limit
-- of a source is left out or is a positive integer; and if the configuration names an issuer and a
-- client, a bus where it names credentials, and a database unless the stores are in memory.
pub load_iff :
    (env : Text → Text) (cfg : Config) → (load env ≡ inr cfg) ↔ (Reads env cfg × IsComplete cfg)
unfolding load
load_iff env cfg = (
  (λ h. elim (Option-cases (max_code_bytes (env (txt "BOOTH_CATALOG_MAX_CODE_BYTES")))) [
    | inl p ↦ absurd (refused _ p h)
    | inr (m, p) ↦
        let (e, is) = checked_sound (config_of env m) cfg (ap (with_limit env) (sym p) ∙ h) in
        (subst (Reads env) e (config_of-Reads env m p), subst IsComplete e is)
  ]),
  λ (reads, is).
      let same = Reads-unique env cfg reads in
      ap (with_limit env)
        ((max_code_bytes_iff _ cfg.max_code_source_bytes).1 reads.max_code_source_bytes)
      ∙ checked_complete (config_of env cfg.max_code_source_bytes) (subst IsComplete same is)
      ∙ ap inr (sym same),
)
  where
    refused : (o : Option ℕ) → o ≡ none → with_limit env o ≡ inr cfg → ⊥
    refused none p h = ground arith
    refused (some n) p h = ground arith
