-- ===== src/Auth/Providers.antt =====
-- auth/identity_provider.py, with the settings of config.py that it reads: Keycloak and Entra.
use Prim.Native.String.{◌++◌}
use lehen.Prelude.{ℕ, String, Option, none, some, List, [], ◌∷◌, ◌&&◌, is_none, ◌==◌, if◌then◌else◌}
use lehen.Prelude.Dict.{Dict}
use lehen.Prelude.Effects.{Result, ok, err, settings_error, identity_provider_error}

-- s.rstrip("/")
unfoldable pub strip_slashes : String → String
strip_slashes String.[] = ""
strip_slashes (String.◌∷◌ c s) =
    let rest = strip_slashes s in
    if rest == "" && String.◌∷◌ c "" == "/" then "" else String.◌∷◌ c rest

pub record KeycloakSettings : Type 0 where
  pub base_url : String
  pub realm : String
  pub audience : String
  pub admin_role : String
  pub edge_client_id : String
  pub admin_ui_client_id : String
  pub jwks_ttl_seconds : ℕ

pub record EntraSettings : Type 0 where
  pub tenant_id : String
  pub audience : String
  pub admin_role : String
  pub edge_client_id : String
  pub admin_ui_client_id : String
  pub jwks_ttl_seconds : ℕ

unfoldable pub keycloak_issuer : KeycloakSettings → String
unfolding strip_slashes
keycloak_issuer s = strip_slashes s.base_url ++ "/realms/" ++ s.realm

unfoldable pub keycloak_well_known_url : KeycloakSettings → String
unfolding keycloak_issuer
keycloak_well_known_url s = keycloak_issuer s ++ "/.well-known/openid-configuration"

unfoldable pub keycloak_jwks_url : KeycloakSettings → String
unfolding keycloak_issuer
keycloak_jwks_url s = keycloak_issuer s ++ "/protocol/openid-connect/certs"

unfoldable pub entra_issuer : EntraSettings → String
entra_issuer s = "https://login.microsoftonline.com/" ++ s.tenant_id ++ "/v2.0"

unfoldable pub entra_well_known_url : EntraSettings → String
entra_well_known_url s =
    "https://login.microsoftonline.com/" ++ s.tenant_id ++ "/v2.0/"
    ++ ".well-known/openid-configuration"

unfoldable pub entra_jwks_url : EntraSettings → String
entra_jwks_url s = "https://login.microsoftonline.com/" ++ s.tenant_id ++ "/discovery/v2.0/keys"

-- `KeycloakIdentityProvider` and `EntraIdentityProvider`
pub data Provider : Type 0 where
  keycloak : KeycloakSettings → Provider
  entra : EntraSettings → Provider

unfoldable pub provider_id : Provider → String
provider_id (keycloak s) = "keycloak"
provider_id (entra s) = "entra"

unfoldable pub issuer : Provider → String
unfolding keycloak_issuer entra_issuer
issuer (keycloak s) = keycloak_issuer s
issuer (entra s) = entra_issuer s

unfoldable pub accepted_issuers : Provider → List String
unfolding keycloak_issuer entra_issuer
accepted_issuers (keycloak s) = keycloak_issuer s ∷ []
accepted_issuers (entra s) =
    entra_issuer s ∷ ("https://sts.windows.net/" ++ s.tenant_id ++ "/") ∷ []

unfoldable pub audience : Provider → String
audience (keycloak s) = s.audience
audience (entra s) = s.audience

unfoldable pub jwks_url : Provider → String
unfolding keycloak_jwks_url entra_jwks_url
jwks_url (keycloak s) = keycloak_jwks_url s
jwks_url (entra s) = entra_jwks_url s

unfoldable pub well_known_url : Provider → String
unfolding keycloak_well_known_url entra_well_known_url
well_known_url (keycloak s) = keycloak_well_known_url s
well_known_url (entra s) = entra_well_known_url s

unfoldable pub admin_role : Provider → String
admin_role (keycloak s) = s.admin_role
admin_role (entra s) = s.admin_role

unfoldable pub jwks_ttl_seconds : Provider → ℕ
jwks_ttl_seconds (keycloak s) = s.jwks_ttl_seconds
jwks_ttl_seconds (entra s) = s.jwks_ttl_seconds

-- The claims of a token that the Hub reads, texts already; a claim that is missing is an empty
-- text. Of the roles: the list that stands there, none where there is no list.
pub record TokenClaims : Type 0 where
  pub iss : String
  pub sub : String
  pub preferred_username : String
  -- claims["realm_access"]["roles"]
  pub realm_access_roles : Option (List String)
  -- claims["roles"]
  pub roles : Option (List String)

-- `x or []`
abbrev pub or_nothing : Option (List String) → List String
or_nothing none = []
or_nothing (some rs) = rs

unfoldable pub extract_realm_roles : Provider → TokenClaims → List String
extract_realm_roles (keycloak s) claims = or_nothing claims.realm_access_roles
extract_realm_roles (entra s) claims = or_nothing claims.roles

unfoldable pub discovery_config : Provider → Dict String
unfolding provider_id issuer well_known_url audience
discovery_config (keycloak s) =
    ("provider", provider_id (keycloak s))
    ∷ ("issuer", issuer (keycloak s))
    ∷ ("well_known_url", well_known_url (keycloak s))
    ∷ ("realm", s.realm)
    ∷ ("edge_client_id", s.edge_client_id)
    ∷ ("admin_ui_client_id", s.admin_ui_client_id)
    ∷ ("audience", audience (keycloak s))
    ∷ []
discovery_config (entra s) =
    ("provider", provider_id (entra s))
    ∷ ("issuer", issuer (entra s))
    ∷ ("well_known_url", well_known_url (entra s))
    ∷ ("realm", s.tenant_id)
    ∷ ("edge_client_id", s.edge_client_id)
    ∷ ("admin_ui_client_id", s.admin_ui_client_id)
    ∷ ("audience", audience (entra s))
    ∷ []

-- `Settings`, as far as it concerns the provider; pydantic lets only the two names through
pub record ProviderSettings : Type 0 where
  pub identity_provider : String
  pub keycloak_settings : Option KeycloakSettings
  pub entra_settings : Option EntraSettings

-- `_selected_provider_is_configured`
unfoldable pub selected_provider_is_configured : ProviderSettings → Result ProviderSettings
selected_provider_is_configured s =
    if s.identity_provider == "keycloak" && is_none s.keycloak_settings
    then err settings_error
    else if s.identity_provider == "entra" && is_none s.entra_settings
    then err settings_error
    else ok s

unfoldable pub build_identity_provider_from_settings :
    Option KeycloakSettings → Option EntraSettings → String → Result Provider
build_identity_provider_from_settings k e selector =
    if selector == "keycloak"
    then elim k [ none ↦ err identity_provider_error | some s ↦ ok (keycloak s) ]
    else if selector == "entra"
    then elim e [ none ↦ err identity_provider_error | some s ↦ ok (entra s) ]
    else err identity_provider_error
