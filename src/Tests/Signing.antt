-- ===== src/Tests/Signing.antt =====
-- The theorems about the tokens of the identity provider.
use mathlib.Core.List.{Memᴰ}
use Prim.Native.Nat.{◌*◌}
use lehen.Prelude.{
  ℕ, ◌+◌, ◌≤◌, ltb, String, true, Option, none, some, List, [], ◌∷◌, ◌≡◌, refl, ◌⊎◌, any, arith, ap,
  sym, ◌==◌,
}
use lehen.Prelude.Effects.{ok, is_ok}
use lehen.Hub.{Jwk, LocalClaims, World, second}
use lehen.Hub.Toy.{toy}
use lehen.Auth.Jwks.{JwksEndpoint, JwksTimes, get_keys}
use lehen.Auth.Jwt.{Jose, has_kid, only_issuer, verified_siam_claims}
use lehen.Auth.Providers.{
  Provider, keycloak, TokenClaims, accepted_issuers, admin_role, extract_realm_roles, issuer,
}
use lehen.Auth.Caching.{ForwardLaw, get_keys_quiet}
use lehen.Auth.Surfaces.{decode_local_admin_token, require_admin}
use lehen.Auth.Verifying.{IssuerLaw, surface_view, require_admin_verified}
use lehen.Hub.{Bytes}
use Prim.Native.String.{count}
use lehen.Crypto.Envelope.{key_len}
use lehen.Crypto.Keys.{decode_master_key, decode_audit_pepper}
use lehen.Auth.Providers.{ProviderSettings, build_identity_provider_from_settings}
use lehen.Config.Settings.{Settings, validated, get_master_key_bytes, get_audit_pepper_bytes}
use lehen.Config.Startup.{validated_starts}
use lehen.Tests.{machine, world}

abbrev rsa : Jwk
rsa = record { kid = some "k1"; key = "rsa" }

abbrev certs : JwksEndpoint
certs = λ n. some (some (rsa ∷ []))

abbrev broken : JwksEndpoint
broken = λ n. none

abbrev times : JwksTimes
times = record { ttl = 600000000; negative_ttl = 30000000 }

machine-ForwardLaw : ForwardLaw toy machine times
machine-ForwardLaw m n h = omega (arith, h)

abbrev warmed : World toy
warmed = record (world []) {
  jwks = record { keys = some (rsa ∷ []); fetched_at = 1000000; negative_until = 0 };
  readings = 5;
}

-- The cache holds what the endpoint gave, and another answer is not asked for.
get_keys_quiet_example :
    get_keys toy machine times broken warmed
    ≡ ((get_keys toy machine times certs (world [])).0, record warmed { readings = 6 })
unfolding get_keys
get_keys_quiet_example =
    get_keys_quiet toy machine times machine-ForwardLaw certs broken (world []) warmed refl refl
      (omega arith) refl refl

test_served : (get_keys toy machine times broken warmed).0 ≡ ok (rsa ∷ [])
unfolding get_keys
test_served = refl

abbrev realm : Provider
realm = keycloak (record {
  base_url = "https://sso.example.org/";
  realm = "lehen";
  audience = "lehen-hub";
  admin_role = "lehen-admin";
  edge_client_id = "lehen-edge";
  admin_ui_client_id = "lehen-admin-ui";
  jwks_ttl_seconds = 600;
})

-- Every token is one of an admin, from the issuer that is asked for.
abbrev claims_from : String → TokenClaims
claims_from iss = record {
  iss = iss;
  sub = "bob";
  preferred_username = "bob";
  realm_access_roles = some ("lehen-admin" ∷ []);
  roles = none;
}

abbrev claims_for : Option String → Option TokenClaims
claims_for none = none
claims_for (some iss) = some (claims_from iss)

abbrev trusting : Jose
trusting = record {
  header_kid = λ token. some "k1";
  decode = λ ts token key aud iss. claims_for iss;
}

trusting-IssuerLaw : IssuerLaw trusting
trusting-IssuerLaw ts token aud iss key claims e =
    ap (λ o. elim o [ none ↦ iss | some c ↦ c.iss ]) (sym e)

abbrev no_signing_key : Option String
no_signing_key = none

test_admitted :
    is_ok
      (require_admin toy machine
        (surface_view toy machine trusting times certs realm)
        (verified_siam_claims toy machine trusting times certs realm)
        none
        no_signing_key
        "token"
        (world [])).0
    ≡ true
unfolding require_admin verified_siam_claims issuer admin_role
test_admitted = refl

require_admin_verified_example :
    let v = (verified_siam_claims toy machine trusting times certs realm "token" (world [])).1 in
    ((key : String) × (claims : LocalClaims) × (no_signing_key ≡ some key)
      × (decode_local_admin_token machine 0 "token" key ≡ ok claims))
    ⊎ ((kid : String) × (keys : List Jwk) × (key : Jwk) × (n : ℕ) × (claims : TokenClaims) × (some
            "k1"
          ≡ some kid)
        × (((m : ℕ) × (0 ≤ m)
              × (m ≤ v.readings)
              × (◌≡◌ {A = Option (List Jwk)} none (some keys))
              × (ltb (m * second) 600000000 ≡ true))
            ⊎ ((m : ℕ) × (0 ≤ m) × (m ≤ v.readings) × (certs m ≡ some (some keys))))
        × Memᴰ key keys
        × (has_kid kid key ≡ true)
        × (0 ≤ n)
        × (v.readings ≡ n + 1)
        × (claims_for (only_issuer (accepted_issuers realm)) ≡ some claims)
        × (any (λ i. i == claims.iss) (accepted_issuers realm) ≡ true)
        × (any (λ r. r == admin_role realm) (extract_realm_roles realm claims) ≡ true))
unfolding issuer
require_admin_verified_example =
    require_admin_verified toy machine trusting times certs realm none no_signing_key "token"
      (world []) trusting-IssuerLaw refl test_admitted

abbrev chosen : ProviderSettings
chosen = record {
  identity_provider = "keycloak";
  keycloak_settings = some (record {
    base_url = "https://sso.example.org/";
    realm = "lehen";
    audience = "lehen-hub";
    admin_role = "lehen-admin";
    edge_client_id = "lehen-edge";
    admin_ui_client_id = "lehen-admin-ui";
    jwks_ttl_seconds = 600;
  });
  entra_settings = none;
}

abbrev environment : Settings
environment = record {
  master_key = "0123456789abcdef0123456789abcdef";
  audit_pepper = "abcdef0123456789abcdef0123456789";
  signing_key = none;
  provider = chosen;
}

test_validated : is_ok (validated machine environment) ≡ true
unfolding validated
test_validated = refl

validated_starts_example :
    (key : Bytes) × (pepper : Bytes) × (provider : Provider) × (get_master_key_bytes machine
        environment
      ≡ some key)
    × (count key ≡ key_len)
    × (decode_master_key machine environment.master_key ≡ ok key)
    × (get_audit_pepper_bytes machine environment ≡ some pepper)
    × (count pepper ≡ key_len)
    × (decode_audit_pepper machine environment.audit_pepper ≡ ok pepper)
    × (build_identity_provider_from_settings chosen.keycloak_settings chosen.entra_settings
          "keycloak"
        ≡ ok provider)
validated_starts_example = validated_starts machine environment test_validated
