-- ===== src/Auth/Verifier.antt =====
-- internal/auth/auth.go: Verifier. The verification of a token's signature, issuer, expiry and audience
-- (go-oidc), the provider's discovery and encoding/json are functions that the model takes.
pub mod Reading
use booth_catalog.Prelude.{
  ℕ, Bool, true, false, not, ◌&&◌, List, [], ◌∷◌, ◌++◌, ◌==◌, nat_eq, list_eq, if◌then◌else◌,
  case_option, Option, none, some, ◌⊎◌, inl, inr,
}
use booth_catalog.Text.{Text, txt, trim_space}
use booth_catalog.Auth.{Claims}

pub record OidcConfig : Type 0 where
  pub issuer_url : Text
  pub client_id : Text
  pub require_audience : Bool
  pub groups_claim : Text
  pub jwks_url : Text

abbrev pub default_groups_claim : Text
default_groups_claim = txt "groups"

-- Where the signing keys come from.
pub data Keys : Type 0 where
  discovered : Text → Keys
  remote : Text → Keys

-- What an oidc.IDTokenVerifier is made of.
pub record IdTokenVerifier : Type 0 where
  pub issuer : Text
  pub keys : Keys
  pub skip_client_id_check : Bool
  pub client_id : Text

pub record Verifier : Type 0 where
  pub id_token_verifier : IdTokenVerifier
  pub groups_claim : Text

abbrev pub groups_claim_or_default : Text → Text
groups_claim_or_default c = if c == [] then default_groups_claim else c

abbrev pub verifier_of : Text → Keys → OidcConfig → Verifier
verifier_of issuer keys cfg = record {
  id_token_verifier = record {
    issuer = issuer;
    keys = keys;
    skip_client_id_check = not cfg.require_audience;
    client_id = cfg.client_id;
  };
  groups_claim = groups_claim_or_default cfg.groups_claim;
}

pub data VerifierError : Type 0 where
  jwks_without_issuer : VerifierError
  discovery_failed : Text → VerifierError

-- NewVerifier, where the provider's discovery answers an error's text or nothing.
unfoldable pub new_verifier : (Text → Option Text) → OidcConfig → VerifierError ⊎ Verifier
new_verifier discovery cfg =
    if not (cfg.jwks_url == []) && cfg.issuer_url == []
    then inl jwks_without_issuer
    else if not (cfg.jwks_url == [])
    then inr (verifier_of cfg.issuer_url (remote cfg.jwks_url) cfg)
    else case_option (discovery cfg.issuer_url)
        (inr (verifier_of cfg.issuer_url (discovered cfg.issuer_url) cfg))
        (λ why. inl (discovery_failed why))

abbrev pub workload_jwks_path : Text
workload_jwks_path = txt "/.well-known/jwks.json"

-- strings.TrimRight(s, "/")
unfoldable pub trim_slashes : Text → Text
trim_slashes [] = []
trim_slashes (c ∷ s) = let rest = trim_slashes s in if c == b'/' && rest == [] then [] else c ∷ rest

unfoldable pub new_workload_verifier : OidcConfig → Verifier
new_workload_verifier cfg =
    let issuer = trim_slashes cfg.issuer_url in
    verifier_of issuer (remote (issuer ++ workload_jwks_path)) cfg

-- A verified token: its subject, and its claims by name where they can be read.
pub record IdToken (Raw : Type 0) : Type 0 where
  pub subject : Text
  pub claims : Option (Text → Option Raw)

module _ {Raw : Type 0} (id_token : IdTokenVerifier → Text → Option (IdToken Raw))
    (decode_groups : Raw → List Text) (decode_text : Raw → Option Text) where
  -- A claim that is a text and is not blank, or what the display name was before.
  abbrev pub named_by : Option Text → Text → Text
  named_by none before = before
  named_by (some s) before = if trim_space s == [] then before else trim_space s

  abbrev pub claim_text : (Text → Option Raw) → Text → Option Text
  claim_text raw name = case_option (raw name) none decode_text

  abbrev pub read_claims : Verifier → Text → (Text → Option Raw) → Claims
  read_claims v subject raw = record {
    subject = subject;
    display_name =
        named_by (claim_text raw (txt "preferred_username"))
          (named_by (claim_text raw (txt "email")) subject);
    groups = case_option (raw v.groups_claim) [] decode_groups;
  }

  -- Verifier.Verify. The decoder of the groups answers what json.Unmarshal leaves in the slice, whose
  -- error is ignored.
  unfoldable pub verify : Verifier → Text → Option Claims
  verify v token = case_option (id_token v.id_token_verifier token) none (λ t.
      if t.subject == []
      then none
      else case_option t.claims none (λ raw. some (read_claims v t.subject raw)))
